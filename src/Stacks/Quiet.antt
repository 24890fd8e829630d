-- ===== src/Stacks/Quiet.antt =====
-- The operations of internal/stack/stack.go, and CreateProxy of internal/toxiproxy/client.go, that
-- bring no container up.
use aero_arc_testing_harness.Prelude.{
  ℤ, ◌≡◌, refl, ◌||◌, List, [], ◌∷◌, ◌++◌, Option, none, some, Text, text, text_eq, inl, inr, Dict,
  lookup, Outcome, outcome_cases, Option-cases, Bool-cases, All,
}
use aero_arc_testing_harness.Injection.Client.{Call, request, delete_proxy, create_proxy}
use aero_arc_testing_harness.Reports.Bundle.{Files}
use aero_arc_testing_harness.Stacks.Types.{Docker, Stack, Manifest}
use aero_arc_testing_harness.Stacks.Lifecycle.{endpoint, write_manifest, terminate_all, manifest_of}
use aero_arc_testing_harness.Stacks.Upkeep.{LogFiles, capture_one, capture_all, capture}
use aero_arc_testing_harness.Stacks.Teardown.{GoesAway, terminate_all-IsDown}
use aero_arc_testing_harness.Stacks.Tracking.{IsQuiet, IsLifetime}

module _ {C W : Type 0} (Up : C → W → Type 0) where
  -- Neither the files nor the reading of the logs brings a container up.
  pub record AreQuiet (files : Files W) (logs : LogFiles C W) : Type 1 where
    pub directory_made : (directory : Text) → IsQuiet Up (files.make_directory directory)
    pub file_written :
        (directory name content : Text) → IsQuiet Up (files.write_file directory name content)
    pub logs_made : (path : List Text) → IsQuiet Up (logs.make_directory path)
    pub logs_read : (c : C) → IsQuiet Up (logs.logs c)
    pub logs_created : (path : List Text) → IsQuiet Up (logs.create path)
    pub logs_copied : (path : List Text) (content : Text) → IsQuiet Up (logs.copy path content)

  module _ (docker : Docker C W) (life : IsLifetime Up docker) where
    pub endpoint-IsQuiet : (c : C) (port scheme : Text) → IsQuiet Up (endpoint docker c port scheme)
    unfolding endpoint
    endpoint-IsQuiet c port scheme d w up = elim (outcome_cases (docker.host c w).1) [
      | inl (e, bad) ↦ life.host_quiet c d w (rw (endpoint, bad) at up)
      | inr (h, good) ↦
          let w' = (docker.host c w).0 in
          life.host_quiet c d w (
            life.mapped_port_quiet c port d w'
              (elim (outcome_cases (docker.mapped_port c port w').1) [
                | inl (e, bad) ↦ rw (endpoint, good, bad) at up
                | inr (m, fine) ↦ rw (endpoint, good, fine) at up
              ]))
    ]

    pub terminate_all-quiet :
        (names : List Text) (containers : Dict C) (first : Option Text)
        → IsQuiet Up (terminate_all docker names containers first)
    unfolding terminate_all
    terminate_all-quiet [] containers first d w up = up
    terminate_all-quiet (name ∷ rest) containers first d w up =
        elim (Option-cases (lookup name containers)) [
          | inl absent ↦
              terminate_all-quiet rest containers first d w (rw (terminate_all, absent) at up)
          | inr (c, found) ↦ life.terminate_quiet c d w (
              terminate_all-quiet rest containers _ d (docker.terminate c w).0
                (rw (terminate_all, found) at up))
        ]

    terminate_all-none :
        (names : List Text) (containers : Dict C) (w : W)
        → ((c : C) (v : W) → (docker.terminate c v).1 ≡ none)
        → (terminate_all docker names containers none w).1 ≡ none
    unfolding terminate_all
    terminate_all-none [] containers w good = refl
    terminate_all-none (name ∷ rest) containers w good =
        elim (Option-cases (lookup name containers)) [
          | inl absent ↦ rw (terminate_all, absent) (terminate_all-none rest containers w good)
          | inr (c, found) ↦
              rw (terminate_all, found, good c w)
                (terminate_all-none rest containers (docker.terminate c w).0 good)
        ]

    pub lifetime-GoesAway : GoesAway docker (λ c w. ¬ (Up c w))
    lifetime-GoesAway = record {
      terminated = life.terminated;
      stays = λ c d w gone up. gone (life.terminate_quiet d c w up);
      network = λ c n w gone up. gone (life.remove_network_quiet n c w up);
    }

    -- When terminations succeed, no registered container of these names is up after them.
    pub terminate_all-down :
        (names : List Text) (containers : Dict C) (w : W)
        → ((c : C) (v : W) → (docker.terminate c v).1 ≡ none)
        → All
            (λ name.
              (c : C)
              → lookup name containers ≡ some c
              → ¬ (Up c (terminate_all docker names containers none w).0))
            names
    terminate_all-down names containers w good =
        terminate_all-IsDown docker (λ c v. ¬ (Up c v)) lifetime-GoesAway containers names w
          (terminate_all-none names containers w good)

  module _ (files : Files W) (logs : LogFiles C W) (still : AreQuiet files logs) where
    pub write_manifest-quiet :
        (marshal : Manifest → Outcome Text) (now : ℤ) (s : Stack C)
        → IsQuiet Up (write_manifest files marshal now s)
    unfolding write_manifest
    write_manifest-quiet marshal now s d w up = elim (outcome_cases (marshal (manifest_of now s))) [
      | inl (e, bad) ↦ rw (write_manifest, bad) at up
      | inr (t, good) ↦
          let made = files.make_directory s.artifact_dir w in
          still.directory_made s.artifact_dir d w (elim (Option-cases made.1) [
            | inr (e, bad) ↦ rw (write_manifest, good, bad) at up
            | inl fine ↦
                still.file_written s.artifact_dir (text "stack.json") (t ++ 10 ∷ []) d made.0
                  (rw (write_manifest, good, fine) at up)
          ])
    ]

    capture_one-quiet :
        (path : List Text) (c : C) (first : Option Text)
        → IsQuiet Up (capture_one logs path c first)
    unfolding capture_one
    capture_one-quiet path c first d w up = elim (outcome_cases (logs.logs c w).1) [
      | inl (e, bad) ↦ still.logs_read c d w (rw (capture_one, bad) at up)
      | inr (t, good) ↦
          let made = logs.create path (logs.logs c w).0 in
          still.logs_read c d w (
            still.logs_created path d (logs.logs c w).0 (elim (Option-cases made.1) [
              | inr (e, bad) ↦ rw (capture_one, good, bad) at up
              | inl fine ↦ still.logs_copied path t d made.0 (rw (capture_one, good, fine) at up)
            ]))
    ]

    pub capture_all-quiet :
        (dir names : List Text) (containers : Dict C) (first : Option Text)
        → IsQuiet Up (capture_all logs dir names containers first)
    capture_all-quiet dir [] containers first d w up = up
    capture_all-quiet dir (name ∷ rest) containers first d w up =
        elim (Option-cases (lookup name containers)) [
          | inl absent ↦
              capture_all-quiet dir rest containers first d w (rw (capture_all, absent) at up)
          | inr (c, found) ↦
              let path = dir ++ (name ++ text ".log") ∷ [] in
              let r = capture_one logs path c first w in
              capture_one-quiet path c first d w
                (capture_all-quiet dir rest containers r.1 d r.0 (rw (capture_all, found) at up))
        ]

    pub capture-quiet : (range : Dict C → Dict C) (s : Stack C) → IsQuiet Up (capture logs range s)
    unfolding capture
    capture-quiet range s d w up =
        let dir = s.artifact_dir ∷ text "logs" ∷ [] in
        let made = logs.make_directory dir w in
        still.logs_made dir d w (elim (Option-cases made.1) [
          | inr (e, bad) ↦ rw (capture, bad) at up
          | inl fine ↦ capture_all-quiet dir _ s.containers none d made.0 (rw (capture, fine) at up)
        ])

  module _ (send : Call → W → W × Outcome ℤ) (escape : Text → Text)
      (silent : (c : Call) → IsQuiet Up (send c)) where
    pub create_proxy-quiet :
        (name listen upstream : Text) → IsQuiet Up (create_proxy send escape name listen upstream)
    unfolding create_proxy delete_proxy request
    create_proxy-quiet name listen upstream d w up =
        elim (Bool-cases (text_eq name [] || text_eq listen [] || text_eq upstream [])) [
          | inl bad ↦ rw (create_proxy, bad) at up
          | inr fine ↦
              silent _ d w
                (silent _ d (delete_proxy send escape name w).0 (rw (create_proxy, fine) at up))
        ]
