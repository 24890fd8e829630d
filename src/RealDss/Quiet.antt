-- ===== src/RealDss/Quiet.antt =====
-- The operations of internal/realdss/stack.go that bring no container up.
use aero_arc_testing_harness.Prelude.{
  ℤ, [], ◌∷◌, ◌++◌, none, Text, text, inl, inr, Dict, Outcome, outcome_cases, Option-cases,
}
use aero_arc_testing_harness.Reports.Bundle.{Files}
use aero_arc_testing_harness.Stacks.Types.{Docker}
use aero_arc_testing_harness.Stacks.Upkeep.{LogFiles}
use aero_arc_testing_harness.Stacks.Tracking.{IsQuiet, IsLifetime}
use aero_arc_testing_harness.Stacks.Quiet.{AreQuiet, endpoint-IsQuiet, capture_all-quiet}
use aero_arc_testing_harness.RealDss.Types.{Config, Environment, Manifest}
use aero_arc_testing_harness.RealDss.Operations.{
  endpoint, require_successful_exit, participant, capture, manifest_of, write_manifest,
}

module _ {C W : Type 0} (Up : C → W → Type 0) where
  module _ (docker : Docker C W) (life : IsLifetime Up docker) where
    pub require_successful_exit-quiet :
        (c : C) (name : Text) → IsQuiet Up (require_successful_exit docker c name)
    unfolding require_successful_exit
    require_successful_exit-quiet c name d w up = life.exit_code_quiet c d w up

    pub participant-quiet :
        (name subject : Text) (server database : C)
        → IsQuiet Up (participant docker name subject server database)
    unfolding participant
    participant-quiet name subject server database d w up =
        let first = endpoint docker server (text "8080/tcp") (text "http") w in
        endpoint-IsQuiet Up docker life server (text "8080/tcp") (text "http") d w
          (elim (outcome_cases first.1) [
            | inl (e, bad) ↦ rw (participant, bad) at up
            | inr (url, good) ↦
                endpoint-IsQuiet Up docker life database (text "5432/tcp") [] d first.0
                  (rw (participant, good) at up)
          ])

  module _ (files : Files W) (logs : LogFiles C W) (still : AreQuiet Up files logs) where
    pub write_manifest-quiet :
        (marshal : Manifest → Outcome Text) (now : ℤ) (config : Config) (env : Environment C)
        → IsQuiet Up (write_manifest files marshal now config env)
    unfolding write_manifest
    write_manifest-quiet marshal now config env d w up =
        elim (outcome_cases (marshal (manifest_of now config env))) [
          | inl (e, bad) ↦ rw (write_manifest, bad) at up
          | inr (t, good) ↦
              let made = files.make_directory env.artifact_dir w in
              still.directory_made env.artifact_dir d w (elim (Option-cases made.1) [
                | inr (e, bad) ↦ rw (write_manifest, good, bad) at up
                | inl fine ↦
                    still.file_written env.artifact_dir (text "stack.json") (t ++ 10 ∷ []) d made.0
                      (rw (write_manifest, good, fine) at up)
              ])
        ]

    pub capture-quiet :
        (range : Dict C → Dict C) (env : Environment C) → IsQuiet Up (capture logs range env)
    unfolding capture
    capture-quiet range env d w up =
        let dir = env.artifact_dir ∷ text "logs" ∷ [] in
        let made = logs.make_directory dir w in
        still.logs_made dir d w (elim (Option-cases made.1) [
          | inr (e, bad) ↦ rw (capture, bad) at up
          | inl fine ↦
              capture_all-quiet Up files logs still dir _ env.containers none d made.0
                (rw (capture, fine) at up)
        ])
