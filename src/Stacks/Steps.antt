-- ===== src/Stacks/Steps.antt =====
-- How the steps of a Start are tracked, for internal/stack/stack.go and
-- internal/realdss/stack.go.
use aero_arc_testing_harness.Prelude.{
  ◌≡◌, refl, sym, subst, ap, ◌∙◌, ◌⊎◌, inl, inr, false, List, [], ◌∷◌, ◌++◌, Option, none, some,
  Text, text_eq, text_eq_iff, text_eq_refl, lookup, insert, lookup-insert, Outcome, ok, failed,
  Bool-cases,
}
use aero_arc_testing_harness.Injection.Client.{ClientError}
use aero_arc_testing_harness.Stacks.Types.{ContainerRequest, Launch, launched, not_launched}
use aero_arc_testing_harness.Stacks.Lifecycle.{start_container}
use aero_arc_testing_harness.Stacks.Upkeep.{keys}
use aero_arc_testing_harness.Stacks.Actions.{
  message, no_proxy, Result, value, raised, done, Action, ◌>>=◌, call, effect, proxying, update,
  launch,
}
use aero_arc_testing_harness.Stacks.Names.{listed, lookup-unlisted, keys-insert}
use aero_arc_testing_harness.Stacks.Tracking.{
  IsQuiet, Handed, IsLifetime, Tracking, IsLeft, IsTracked, WasUp, Kept, Leads,
}

handed : {A B : Type 0} (r : A × B) {b : B} → r.1 ≡ b → r ≡ (r.0, b)
handed (x, y) e = ap (λ z. (x, z)) e

known : {A B X : Type 0} → A ⊎ X → (A ⊎ B) ⊎ X
known (inl a) = inl (inl a)
known (inr x) = inr x

module _ {C W E : Type 0} {t : Tracking C W E} where
  module _ {A : Type 0} {names : List Text} where
    pub bind-Leads :
        {B : Type 0} {more most : List Text} {m : Action (W × E) A} {f : A → Action (W × E) B}
        → Leads t names more m
        → ((a : A) → Leads t more most (f a))
        → Leads t names most (m >>= f)
    unfolding ◌>>=◌
    bind-Leads {B} {more} {most} {m} {f} first rest = record {
      kept = λ s h. next s (m s) (first.kept s h);
    }
      where
        next :
            (s : W × E) (r : (W × E) × Result A)
            → Kept t {A = A} more r
            → Kept t {A = B} most (elim r.1 [ value a ↦ f a r.0 | raised e ↦ (r.0, raised e) ])
        next s (s', value a) h = (rest a).kept s' h
        next s (s', raised e) h = h

    quiet :
        (s : W × E) (w : W) (r : Result A)
        → ((d : C) → t.Up d w → t.Up d s.0)
        → IsTracked t (WasUp t) names s
        → Kept t names ((w, s.1), r)
    quiet s w (value a) still h = record {
      covers = λ d up. h.covers d (still d up);
      registered = h.registered;
      ahead = h.ahead;
    }
    quiet s w (raised e) still h = (
      names,
      record {
        covers = λ d up. known (h.covers d (still d up));
        registered = h.registered;
        ahead = h.ahead;
      },
    )

    pub call-Leads :
        (what : Text) (f : W → W × Outcome A) → IsQuiet t.Up f → Leads t names names (call what f)
    unfolding call
    call-Leads what f q = record {
      kept = λ s h.
          quiet s (f s.0).0
            (elim (f s.0).1 [ ok a ↦ value a | failed e ↦ raised (message (what ++ e)) ])
            (λ d. q d s.0) h;
    }

  module _ {names : List Text} where
    pub effect-Leads :
        (f : E → W → W × Option Text)
        → ((e : E) → IsQuiet t.Up (f e))
        → Leads t names names (effect f)
    unfolding effect
    effect-Leads f q = record {
      kept = λ s h.
          quiet s (f s.1 s.0).0
            (elim (f s.1 s.0).1 [ none ↦ value done | some e ↦ raised (message e) ])
            (λ d. q s.1 d s.0) h;
    }

    pub proxying-Leads :
        (f : W → W × Option ClientError) → IsQuiet t.Up f → Leads t names names (proxying f)
    unfolding proxying
    proxying-Leads f q = record {
      kept = λ s h.
          quiet s (f s.0).0 (elim (f s.0).1 [ none ↦ value done | some e ↦ raised (no_proxy e) ])
            (λ d. q d s.0) h;
    }

    pub update-Leads :
        (f : E → E) → ((e : E) → t.registry (f e) ≡ t.registry e) → Leads t names names (update f)
    unfolding update
    update-Leads f same = record {
      kept = λ s h. record {
        covers = λ d up.
            subst (λ m. t.Up d t.before ⊎ ((name : Text) × (lookup name m ≡ some d)))
              (sym (same s.1)) (h.covers d up);
        registered = ap keys (same s.1) ∙ h.registered;
        ahead = h.ahead;
      };
    }

  -- A launch registers one more name of the order, which is not registered yet.
  pub launch-Leads :
      (network what alias : Text) {names : List Text} (request : ContainerRequest)
      → IsLifetime t.Up t.docker
      → ((name : Text) (c : C) (e : E)
          → t.registry (t.register name c e) ≡ insert name c (t.registry e))
      → listed alias names ≡ false
      → (rest : List Text) × ((names ++ alias ∷ []) ++ rest ≡ t.order)
      → Leads t names (names ++ alias ∷ []) (launch t.docker t.register network what alias request)
  unfolding launch start_container
  launch-Leads network what alias {names} request life registers new ahead =
      let sent = record request {
        networks = network ∷ [];
        network_aliases = (network, alias ∷ []) ∷ [];
      } in
      record {
        kept = λ s h.
            after s h (t.docker.generic_container sent s.0) (λ d. life.launching sent d s.0)
              (λ d e back. record {
                network = network;
                alias = alias;
                request = request;
                earlier = s.0;
                what = what;
                error = e;
                later = ahead.0;
                handed = handed (start_container t.docker network alias request s.0) back;
                told = refl;
                next = ap (λ (l : List Text). (l ++ alias ∷ []) ++ ahead.0) h.registered ∙ ahead.1;
              });
      }
    where
      free : (s : W × E) → IsTracked t (WasUp t) names s → lookup alias (t.registry s.1) ≡ none
      free s h = lookup-unlisted (t.registry s.1) alias (ap (listed alias) h.registered ∙ new)

      new_covers :
          (s : W × E) (d c : C)
          → IsTracked t (WasUp t) names s
          → (t.Up d s.0 ⊎ (c ≡ d))
          → t.Up d t.before
            ⊎ ((name : Text) × (lookup name (t.registry (t.register alias c s.1)) ≡ some d))
      new_covers s d c h (inr same) = inr (
        alias,
        ap (lookup alias) (registers alias c s.1)
            ∙ lookup-insert alias alias c (t.registry s.1)
            ∙ rw (text_eq_refl alias) refl
            ∙ ap some same,
      )
      new_covers s d c h (inl was) = elim (h.covers d was) [
        | inl old ↦ inl old
        | inr (name, found) ↦ elim (Bool-cases (text_eq alias name)) [
          | inl same ↦
              let e = (text_eq_iff alias name).0 same in
              let k = subst (λ n. lookup n (t.registry s.1) ≡ none) e (free s h) in cc
          | inr other ↦ inr (
            name,
            ap (lookup name) (registers alias c s.1)
                ∙ lookup-insert alias name c (t.registry s.1)
                ∙ rw other refl
                ∙ found,
          )
        ]
      ]

      after :
          (s : W × E)
          → IsTracked t (WasUp t) names s
          → (r : W × Launch C) → ((d : C) → t.Up d r.0 → t.Up d s.0 ⊎ Handed t.Up d r.1)
          → ((d : C) (e : Text)
              → r.1 ≡ not_launched (some d) e
              → IsLeft t (message (what ++ e)) (r.0, s.1) d)
          → Kept t {A = C} (names ++ alias ∷ []) (elim r.1 [
            | launched c ↦ ((r.0, t.register alias c s.1), value c)
            | not_launched left e ↦ ((r.0, s.1), raised (message (what ++ e)))
          ])
      after s h (w, launched c) up left = record {
        covers = λ d u. new_covers s d c h (up d u);
        registered =
            ap keys (registers alias c s.1)
            ∙ keys-insert (t.registry s.1) alias c (free s h)
            ∙ ap (λ (l : List Text). l ++ alias ∷ []) h.registered;
        ahead = ahead;
      }
      after s h (w, not_launched l e) up left = (
        names,
        record {
          covers = λ d u. elim (up d u) [
            | inl was ↦ known (h.covers d was)
            | inr handed ↦ inl (inr (left d e (ap (λ (o : Option C). not_launched o e) handed)))
          ];
          registered = h.registered;
          ahead = h.ahead;
        },
      )
