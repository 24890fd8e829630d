-- ===== src/Stacks/Teardown.antt =====
-- What Close of internal/stack/stack.go takes down, and what it leaves.
use aero_arc_testing_harness.Prelude.{
  ◌≡◌, refl, sym, subst, ◌∙◌, ap, List, [], ◌∷◌, ◌++◌, Option, none, some, inl, inr, Text, text,
  Dict, lookup, Option-cases, All, All-map,
}
use aero_arc_testing_harness.Stacks.Types.{Docker, Stack}
use aero_arc_testing_harness.Stacks.Lifecycle.{terminate_all, closing_order, close, first_error}

module _ {C W : Type 0} (docker : Docker C W) where
  -- What gone means: a container is gone once its termination reports no error, and then neither
  -- another termination nor the removal of a network brings it back.
  pub record GoesAway (Gone : C → W → Type 0) : Type 0 where
    pub terminated :
        (c : C) (w : W) → (docker.terminate c w).1 ≡ none → Gone c (docker.terminate c w).0
    pub stays : (c d : C) (w : W) → Gone c w → Gone c (docker.terminate d w).0
    pub network : (c : C) (n : Text) (w : W) → Gone c w → Gone c (docker.remove_network n w).0

  module _ (Gone : C → W → Type 0) (goes : GoesAway Gone) (containers : Dict C) where
    -- The registered container of a name is gone.
    abbrev IsDown : W → Text → Type 0
    IsDown w name = (c : C) → lookup name containers ≡ some c → Gone c w

    terminate_all-Gone :
        (names : List Text) (first : Option Text) (w : W) (c : C)
        → Gone c w
        → Gone c (terminate_all docker names containers first w).0
    unfolding terminate_all
    terminate_all-Gone [] first w c h = h
    terminate_all-Gone (name ∷ rest) first w c h = elim (Option-cases (lookup name containers)) [
      | inl absent ↦ rw (terminate_all, absent) (terminate_all-Gone rest first w c h)
      | inr (d, found) ↦
          rw (terminate_all, found)
            (terminate_all-Gone rest _ (docker.terminate d w).0 c (goes.stays c d w h))
    ]

    terminate_all-first :
        (names : List Text) (e : Text) (w : W)
        → (terminate_all docker names containers (some e) w).1 ≡ some e
    unfolding terminate_all
    terminate_all-first [] e w = refl
    terminate_all-first (name ∷ rest) e w = elim (Option-cases (lookup name containers)) [
      | inl absent ↦ rw (terminate_all, absent) (terminate_all-first rest e w)
      | inr (d, found) ↦
          rw (terminate_all, found) (terminate_all-first rest e (docker.terminate d w).0)
    ]

    pub terminate_all-IsDown :
        (names : List Text) (w : W)
        → (terminate_all docker names containers none w).1 ≡ none
        → All (IsDown (terminate_all docker names containers none w).0) names
    unfolding terminate_all
    terminate_all-IsDown [] w h = tt
    terminate_all-IsDown (name ∷ rest) w h = elim (Option-cases (lookup name containers)) [
      | inl absent ↦
          let step : terminate_all docker (name ∷ rest) containers none w
              ≡ terminate_all docker rest containers none w =
            rw (terminate_all, absent) refl in
          subst (λ (r : W × Option Text). All (IsDown r.0) (name ∷ rest)) (sym step)
            (
              (λ c found. cc),
              terminate_all-IsDown rest w (ap (λ (r : W × Option Text). r.1) (sym step) ∙ h),
            )
      | inr (d, found) ↦ elim (Option-cases (docker.terminate d w).1) [
        | inr (e, bad) ↦
            let k = rw (terminate_all, found, bad) at h in
            let l =
              terminate_all-first rest (text "terminate " ++ name ++ text ": " ++ e)
                (docker.terminate d w).0 in
            cc
        | inl good ↦
            let w' = (docker.terminate d w).0 in
            let step : terminate_all docker (name ∷ rest) containers none w
                ≡ terminate_all docker rest containers none w' =
              rw (terminate_all, found, good) refl in
            let down = terminate_all-Gone rest none w' d (goes.terminated d w good) in
            subst (λ (r : W × Option Text). All (IsDown r.0) (name ∷ rest)) (sym step)
              (
                λ c found'.
                    let e : d ≡ c = cc in
                    subst (λ x. Gone x (terminate_all docker rest containers none w').0) e down,
                terminate_all-IsDown rest w' (ap (λ (r : W × Option Text). r.1) (sym step) ∙ h),
              )
      ]
    ]

  first_error-none :
      (first : Option Text) (what : Text) (o : Option Text)
      → first_error first what o ≡ none
      → first ≡ none
  first_error-none none what o h = refl
  first_error-none (some e) what o h = cc

  -- If Close reports no error, then every container that the stack has registered under one of
  -- the five names that Close knows is gone, whatever else it found on the way.
  pub close-IsDown :
      (Gone : C → W → Type 0) (s : Stack C) (w : W)
      → GoesAway Gone
      → (close docker s w).1 ≡ none
      → All
          (λ name. (c : C) → lookup name s.containers ≡ some c → Gone c (close docker s w).0)
          closing_order
  unfolding close
  close-IsDown Gone s w goes h = elim (Option-cases s.network) [
    | inl never ↦
        let step : close docker s w ≡ terminate_all docker closing_order s.containers none w =
          rw (close, never) refl in
        subst (λ (r : W × Option Text). All (IsDown Gone goes s.containers r.0) closing_order)
          (sym step)
          (terminate_all-IsDown Gone goes s.containers closing_order w
            (ap (λ (r : W × Option Text). r.1) (sym step) ∙ h))
    | inr (n, there) ↦
        let t = terminate_all docker closing_order s.containers none w in
        let step : close docker s w ≡ (
          (docker.remove_network n t.0).0,
          first_error t.1 (text "remove network: ") (docker.remove_network n t.0).1,
        ) =
          rw (close, there) refl in
        let clean =
          first_error-none t.1 (text "remove network: ") (docker.remove_network n t.0).1
            (ap (λ (r : W × Option Text). r.1) (sym step) ∙ h) in
        subst (λ (r : W × Option Text). All (IsDown Gone goes s.containers r.0) closing_order)
          (sym step)
          (All-map (IsDown Gone goes s.containers t.0)
            (IsDown Gone goes s.containers (docker.remove_network n t.0).0)
            (λ name down c found. goes.network c n t.0 (down c found)) closing_order
            (terminate_all-IsDown Gone goes s.containers closing_order w clean))
  ]
