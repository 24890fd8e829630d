-- ===== src/RealDss/Operations.antt =====
-- Capture, Close and writeManifest of internal/realdss/stack.go, and the helpers of its Start.
use aero_arc_testing_harness.Prelude.{
  ℤ, pos, eq_ℤ, List, [], ◌∷◌, ◌++◌, Option, none, some, Text, text, text_less, if◌then◌else◌,
  decimal_int, Dict, Outcome, ok, failed, sort,
}
use aero_arc_testing_harness.Reports.Bundle.{Files}
use aero_arc_testing_harness.Stacks.Types.{Docker}
use aero_arc_testing_harness.Stacks.Lifecycle.{first_error, terminate_all}
use aero_arc_testing_harness.Stacks.Lifecycle
use aero_arc_testing_harness.Stacks.Upkeep.{LogFiles, capture_all, keys}
use aero_arc_testing_harness.Stacks.Startup.{Host, database_url_at}
use aero_arc_testing_harness.RealDss.Types.{
  Config, Participant, Environment, Manifest, postgis_image, cockroach_image, dss_image,
  oauth_image, aero_arc_api_image, crdb, scd_migration,
}

-- Reverse dependency order.
abbrev pub closing_order : List Text
closing_order =
    text "uss-b"
    ∷ text "uss-a"
    ∷ text "postgis-b"
    ∷ text "postgis-a"
    ∷ text "interuss-dss"
    ∷ text "interuss-oauth"
    ∷ text "interuss-aux-migration"
    ∷ text "interuss-rid-migration"
    ∷ scd_migration
    ∷ crdb
    ∷ []

module _ {C W : Type 0} (docker : Docker C W) where
  -- The endpoint of a container, which is that of internal/stack/stack.go.
  abbrev pub endpoint : C → (port scheme : Text) → W → W × Outcome Text
  endpoint = Lifecycle.endpoint docker

  unfoldable pub require_successful_exit : C → (name : Text) → W → W × Option Text
  require_successful_exit c name w =
      let state = docker.exit_code c w in
      (
        state.0,
        elim state.1 [
          | failed e ↦ some (text "read " ++ name ++ text " state: " ++ e)
          | ok code ↦
              if eq_ℤ code (pos 0)
              then none
              else some (name ++ text " exited with code " ++ decimal_int code)
        ],
      )

  unfoldable pub participant :
      (name subject : Text) (server database : C) → W → W × Outcome Participant
  participant name subject server database w =
      let api = endpoint server (text "8080/tcp") (text "http") w in
      elim api.1 [
        | failed e ↦ (api.0, failed e)
        | ok api_url ↦
            let db = endpoint database (text "5432/tcp") [] api.0 in
            (
              db.0,
              elim db.1 [
                | failed e ↦ failed e
                | ok at ↦ ok (record {
                  name = name;
                  subject = subject;
                  api_base_url = api_url;
                  database_url = database_url_at at;
                })
              ],
            )
      ]

  unfoldable pub close : Environment C → W → W × Option Text
  close env w =
      let t = terminate_all docker closing_order env.containers none w in
      elim env.network [
        | none ↦ t
        | some n ↦
            let r = docker.remove_network n t.0 in
            (r.0, first_error t.1 (text "remove real-DSS network: ") r.1)
      ]

unfoldable pub capture :
    {C W : Type 0} → LogFiles C W → (range : Dict C → Dict C) → Environment C → W → W × Option Text
capture logs range env w =
    let logs_dir = env.artifact_dir ∷ text "logs" ∷ [] in
    let made = logs.make_directory logs_dir w in
    elim made.1 [
      | some e ↦ made
      | none ↦
          let names = sort (λ t. t) text_less (keys (range env.containers)) in
          capture_all logs logs_dir names env.containers none made.0
    ]

abbrev pub manifest_of : {C : Type 0} → (now : ℤ) → Config → Environment C → Manifest
manifest_of now config env = record {
  run_id = env.run_id;
  seed = env.seed;
  tier = text "real-dss-two-uss";
  created_at = now;
  images =
      (text "postgis", postgis_image)
      ∷ (text "cockroachdb", cockroach_image)
      ∷ (text "interuss_dss", dss_image)
      ∷ (text "interuss_oauth", oauth_image)
      ∷ (text "aero_arc_api", aero_arc_api_image)
      ∷ [];
  source_revisions =
      (text "aero_arc_api", config.api_source_revision)
      ∷ (text "interuss_dss", config.dss_source_revision)
      ∷ [];
  endpoints = (text "dss", env.dss_base_url) ∷ (text "oauth", env.oauth_url) ∷ [];
  participants = env.uss_a ∷ env.uss_b ∷ [];
}

unfoldable pub write_manifest :
    {C W : Type 0}
    → Files W
    → (marshal : Manifest → Outcome Text) (now : ℤ) → Config
    → Environment C
    → W
    → W × Option Text
write_manifest files marshal now config env w = elim (marshal (manifest_of now config env)) [
  | failed e ↦ (w, some e)
  | ok encoded ↦
      let made = files.make_directory env.artifact_dir w in
      elim made.1 [
        | some e ↦ (made.0, some e)
        | none ↦ files.write_file env.artifact_dir (text "stack.json") (encoded ++ 10 ∷ []) made.0
      ]
]

-- The deferred Capture and Close, whose errors are dropped.
unfoldable pub clean_up : {C W : Type 0} → Host C W → Environment C → W → W
clean_up host env w = (close host.docker env (capture host.logs host.range env w).0).0
