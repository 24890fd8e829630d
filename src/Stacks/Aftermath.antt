-- ===== src/Stacks/Aftermath.antt =====
-- What a Start leaves up, and what a Close after it, for internal/stack/stack.go and
-- internal/realdss/stack.go, from the tracking of their steps.
use aero_arc_testing_harness.Prelude.{
  ◌≡◌, refl, sym, subst, ap, ◌∙◌, ◌⊎◌, inl, inr, List, [], ◌∷◌, ◌++◌, none, some, Text, Dict,
  lookup, All,
}
use aero_arc_testing_harness.Stacks.Types.{Docker}
use aero_arc_testing_harness.Stacks.Lifecycle.{terminate_all}
use aero_arc_testing_harness.Stacks.Upkeep.{keys}
use aero_arc_testing_harness.Stacks.Actions.{Failure, Result, value, raised, Done}
use aero_arc_testing_harness.Stacks.Names.{lookup-keys, All-prefix}
use aero_arc_testing_harness.Stacks.Tracking.{IsLifetime, Tracking, IsLeft, Kept}
use aero_arc_testing_harness.Stacks.Quiet.{terminate_all-quiet, terminate_all-down}

append_nil : {A : Type 0} (l : List A) → l ++ [] ≡ l
append_nil [] = refl
append_nil (x ∷ l) = ap (λ r. x ∷ r) (append_nil l)

module _ {C W E : Type 0} (t : Tracking C W E) where
  -- What takes down every container that is registered under names of the order, and brings none
  -- up.
  pub record Downs (f : E → W → W) : Type 0 where
    pub down :
        (s : E) (w : W) (names rest : List Text)
        → keys (t.registry s) ≡ names
        → names ++ rest ≡ t.order
        → (d : C) → t.Up d (f s w)
        → t.Up d w × ((name : Text) → ¬ (lookup name (t.registry s) ≡ some d))

  -- What a run of Start with some clean-up comes to: nothing was called, or the steps were taken
  -- to their end or to an error.
  pub data Course (clean : E → W → W) (run : (W × E) × Result Done) : W × Result E → Type 0 where
    turned_down : (e : Failure) → Course clean run (t.before, raised e)
    provided :
        (s : E) (w : W)
        → keys (t.registry s) ≡ t.order
        → ((d : C)
            → t.Up d w
            → t.Up d t.before ⊎ ((name : Text) × (lookup name (t.registry s) ≡ some d)))
        → Course clean run (w, value s)
    given_up :
        (s : E) (w : W) (names rest : List Text) (e : Failure)
        → run ≡ ((w, s), raised e)
        → keys (t.registry s) ≡ names
        → names ++ rest ≡ t.order
        → ((d : C)
            → t.Up d w
            → (t.Up d t.before ⊎ IsLeft t e (w, s) d)
              ⊎ ((name : Text) × (lookup name (t.registry s) ≡ some d)))
        → Course clean run (clean s w, raised e)

  pub Kept-Course :
      (clean : E → W → W) (r : (W × E) × Result Done)
      → Kept t t.order r
      → Course clean r
          (elim r.1 [ value d ↦ (r.0.0, value r.0.1) | raised e ↦ (clean r.0.1 r.0.0, raised e) ])
  Kept-Course clean ((w, s), value d) h = provided s w h.registered h.covers
  Kept-Course clean ((w, s), raised e) (names, h) =
      given_up s w names h.ahead.0 e refl h.registered h.ahead.1 h.covers

  -- A container that a run of Start left behind: the run stopped with the failure and was
  -- cleaned up, its last launch handed the container back with the error, and it was registered
  -- under no name then.
  pub record IsLeftBehind (clean : E → W → W) (run : (W × E) × Result Done) (last : W)
      (failure : Failure) (d : C) : Type 0 where
    pub stack : E
    pub world : W
    pub stopped : run ≡ ((world, stack), raised failure)
    pub cleaned : last ≡ clean stack world
    pub left : IsLeft t failure (world, stack) d
    pub unregistered : (name : Text) → ¬ (lookup name (t.registry stack) ≡ some d)

  pub Course-leaves :
      (clean : E → W → W) (run : (W × E) × Result Done) (r : W × Result E) (e : Failure)
      → Downs clean
      → Course clean run r
      → r.1 ≡ raised e
      → (d : C) → t.Up d r.0
      → t.Up d t.before ⊎ IsLeftBehind clean run r.0 e d
  Course-leaves clean run r e downs (turned_down f) h d up = inl up
  Course-leaves clean run r e downs (provided s w registered covers) h d up = cc
  Course-leaves clean run r e downs (given_up s w names rest f stopped registered ahead covers) h d
        up =
      let (still, unregistered) = downs.down s w names rest registered ahead d up in
      elim (covers d still) [
        | inl (inl was) ↦ inl was
        | inl (inr left) ↦
            let same : f ≡ e = cc in
            inr (record {
              stack = s;
              world = w;
              stopped = stopped ∙ ap (λ x. ((w, s), raised x)) same;
              cleaned = refl;
              left = subst (λ x. IsLeft t x (w, s) d) same left;
              unregistered = unregistered;
            })
        | inr (name, found) ↦ absurd (unregistered name found)
      ]

  pub Course-close :
      (clean close : E → W → W) (run : (W × E) × Result Done) (r : W × Result E) (s : E)
      → Downs close
      → Course clean run r
      → r.1 ≡ value s
      → (keys (t.registry s) ≡ t.order) × ((d : C) → t.Up d (close s r.0) → t.Up d t.before)
  Course-close clean close run r s downs (turned_down f) h = cc
  Course-close clean close run r s downs (given_up u w names rest f stopped registered ahead covers)
        h =
      cc
  Course-close clean close run r s downs (provided u w registered covers) h =
      let same : u ≡ s = cc in
      subst
        (λ x. (keys (t.registry x) ≡ t.order) × ((d : C) → t.Up d (close x w) → t.Up d t.before))
        same
        (
          registered,
          λ d up.
              let (still, unregistered) =
                downs.down u w t.order [] registered (append_nil t.order) d up in
              elim (covers d still) [
                | inl was ↦ was
                | inr (name, found) ↦ absurd (unregistered name found)
              ],
        )

module _ {C W : Type 0} {Up : C → W → Type 0} {docker : Docker C W}
    (life : IsLifetime Up docker) where
  -- Terminations of all names of an order, in another order.
  pub terminated-down :
      (closing : List Text) (containers : Dict C) (w : W) (names rest : List Text)
      {order : List Text}
      → ((c : C) (v : W) → (docker.terminate c v).1 ≡ none)
      → keys containers ≡ names
      → names ++ rest ≡ order
      → ((P : Text → Type 0) → All P closing → All P order)
      → (d : C) → Up d (terminate_all docker closing containers none w).0
      → Up d w × ((name : Text) → ¬ (lookup name containers ≡ some d))
  terminated-down closing containers w names rest good registered ahead covered d up =
      let P : Text → Type 0 = λ name.
        (c : C)
        → lookup name containers ≡ some c
        → ¬ (Up c (terminate_all docker closing containers none w).0) in
      let all = covered P (terminate_all-down Up docker life closing containers w good) in
      (
        terminate_all-quiet Up docker life closing containers none d w up,
        λ name found.
            lookup-keys P containers name found
              (subst (All P) (sym registered)
                (All-prefix P names rest (subst (All P) (sym ahead) all)))
              d found up,
      )
