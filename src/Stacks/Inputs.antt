-- ===== src/Stacks/Inputs.antt =====
-- What Start of internal/stack/stack.go demands of its configuration and of the files.
use aero_arc_testing_harness.Prelude.{
  ◌≡◌, refl, ◌⊎◌, inl, inr, true, ◌||◌, List, [], ◌∷◌, ◌++◌, none, Text, text, text_eq, Outcome,
  Option-cases, Bool-cases, All,
}
use aero_arc_testing_harness.Stacks.Types.{Manifest}
use aero_arc_testing_harness.Stacks.Actions.{Failure, message, raised, first_missing}
use aero_arc_testing_harness.Stacks.Requests.{Config}
use aero_arc_testing_harness.Stacks.Startup.{Host, Control, required, start}

module _ {C W : Type 0} (host : Host C W) (control : Control W)
    (marshal : Manifest → Outcome Text) where
  first_missing-none :
      (paths : List (List Text)) (w : W)
      → first_missing host.stat paths w ≡ none
      → All (λ path. host.stat path w ≡ none) paths
  unfolding first_missing
  first_missing-none [] w h = tt
  first_missing-none (p ∷ rest) w h = elim (Option-cases (host.stat p w)) [
    | inr (f, missing) ↦ let k = rw (first_missing, missing) at h in cc
    | inl there ↦ (there, first_missing-none rest w (rw (first_missing, there) at h))
  ]

  -- When a directory of the configuration is empty or a required file is missing, Start changes
  -- nothing and returns an error.
  pub start-inputs :
      (config : Config) (w : W)
      → ((text_eq config.root_dir []
            || text_eq config.api_source []
            || text_eq config.artifact_dir [])
          ≡ true)
        ⊎ (¬ (All (λ path. host.stat path w ≡ none) (required config)))
      → (e : Failure) × (start host control marshal config w ≡ (w, raised e))
  unfolding start
  start-inputs config w bad =
      elim (Bool-cases (
        text_eq config.root_dir []
        || text_eq config.api_source []
        || text_eq config.artifact_dir [])) [
          | inl empty ↦ (
            message (text "root, API source, and artifact directories are required"),
            rw (start, empty) refl,
          )
          | inr full ↦ elim (Option-cases (first_missing host.stat (required config) w)) [
            | inr (m, missing) ↦ (
              message (text "required harness input " ++ host.join m.0 ++ text ": " ++ m.1),
              rw (start, full, missing) refl,
            )
            | inl there ↦ elim bad [
              | inl empty ↦ cc
              | inr absent ↦ absurd (absent (first_missing-none (required config) w there))
            ]
          ]
        ]
