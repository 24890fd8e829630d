-- ===== src/RealDss/Startup.antt =====
-- Start of internal/realdss/stack.go. Its startContainer is that of internal/stack/stack.go, which
-- `launch` calls.
use aero_arc_testing_harness.Prelude.{
  ℤ, ◌||◌, List, [], ◌∷◌, ◌++◌, none, some, Text, text, text_eq, if◌then◌else◌, Dict, Outcome,
}
use aero_arc_testing_harness.Stacks.Types.{ContainerRequest}
use aero_arc_testing_harness.Stacks.Actions.{
  message, Result, value, raised, Done, done, Action, ◌>>=◌, ◌>>◌, call, effect, update, launch,
  first_missing,
}
use aero_arc_testing_harness.Stacks.Startup.{Host}
use aero_arc_testing_harness.RealDss.Types.{
  Config, Environment, Manifest, crdb, scd_migration, migration_name, bounded, required,
  new_environment, register, labels_of,
}
use aero_arc_testing_harness.RealDss.Requests.{
  postgis_request, crdb_request, scd_migration_request, migration_request, oauth_request,
  core_request, uss_a_request, uss_b_request,
}
use aero_arc_testing_harness.RealDss.Operations.{
  endpoint, require_successful_exit, participant, write_manifest, clean_up,
}

module _ {C W : Type 0} (host : Host C W) where
  unfoldable pub start_postgis :
      (network alias : Text) (labels : Dict Text) (startup_limit : ℤ) → Action (W × Environment C) C
  start_postgis network alias labels startup_limit =
      launch host.docker register network (text "start " ++ alias ++ text ": ") alias
        (postgis_request labels startup_limit)

  -- A migration that runs in a container of its own and has to exit with success.
  unfoldable pub migrate :
      (network what alias label : Text) → ContainerRequest → Action (W × Environment C) Done
  migrate network what alias label request = do
    migration ← launch host.docker register network what alias request
    effect (λ env. require_successful_exit host.docker migration label)

  -- The loop over the schemas.
  unfoldable pub migrate_all :
      (network : Text)
      → Config
      → (labels : Dict Text) (schemas : List Text) → Action (W × Environment C) Done
  migrate_all network config labels [] = λ s. (s, value done)
  migrate_all network config labels (schema ∷ rest) = do
    migrate network (text "run InterUSS " ++ schema ++ text " migration: ") (migration_name schema)
        (text "InterUSS " ++ schema ++ text " migration") (migration_request config labels schema)
    migrate_all network config labels rest

  -- From the network to the manifest.
  unfoldable pub provision :
      (marshal : Manifest → Outcome Text)
      → Config
      → (run_id : Text) → Action (W × Environment C) Done
  provision marshal config run_id = do
    let labels = labels_of run_id config
    network ←
        call (text "create real-DSS network: ")
          (host.docker.new_network ((text "aero-arc.io/test-run", run_id) ∷ []))
    update (λ env. record env { network = some network })
    database ←
        launch host.docker register network (text "start InterUSS CockroachDB: ") crdb
          (crdb_request config labels)
    migrate network (text "run InterUSS SCD migration: ") scd_migration
        (text "InterUSS SCD migration") (scd_migration_request config labels)
    migrate_all network config labels (text "rid" ∷ text "aux_" ∷ [])
    oauth ←
        launch host.docker register network (text "start InterUSS dummy OAuth: ")
          (text "interuss-oauth") (oauth_request config labels)
    oauth_at ← call [] (endpoint host.docker oauth (text "8085/tcp") (text "http"))
    update (λ env. record env { oauth_url = oauth_at ++ text "/token" })
    core ←
        launch host.docker register network (text "start InterUSS core service: ")
          (text "interuss-dss") (core_request config labels)
    dss_at ← call [] (endpoint host.docker core (text "8082/tcp") (text "http"))
    update (λ env. record env { dss_base_url = dss_at })
    postgis_a ← start_postgis network (text "postgis-a") labels config.startup_limit
    postgis_b ← start_postgis network (text "postgis-b") labels config.startup_limit
    api_a ←
        launch host.docker register network (text "start Aero Arc USS-A: ") (text "uss-a")
          (uss_a_request config labels)
    api_b ←
        launch host.docker register network (text "start Aero Arc USS-B: ") (text "uss-b")
          (uss_b_request config labels)
    a ← call [] (participant host.docker (text "uss-a") (text "uss-a") api_a postgis_a)
    update (λ env. record env { uss_a = a })
    b ← call [] (participant host.docker (text "uss-b") (text "uss-b") api_b postgis_b)
    update (λ env. record env { uss_b = b })
    effect (λ env w. write_manifest host.files marshal (host.now w) config env w)

  unfoldable pub start :
      (marshal : Manifest → Outcome Text) → Config → W → W × Result (Environment C)
  start marshal config w =
      if text_eq config.root_dir []
        || text_eq config.api_source []
        || text_eq config.interuss_source []
        || text_eq config.artifact_dir []
      then (
        w,
        raised (
            message
              (text "root, API source, InterUSS source, and artifact directories are required")),
      )
      else elim (first_missing host.stat (required config) w) [
        | some (path, e) ↦ (
          w,
          raised (message (text "required real-DSS input " ++ host.join path ++ text ": " ++ e)),
        )
        | none ↦
            let fresh = new_environment (host.now w) config in
            let r = provision marshal (bounded config) fresh.run_id (w, fresh) in
            elim r.1 [
              | value d ↦ (r.0.0, value r.0.1)
              | raised e ↦ (clean_up host r.0.1 r.0.0, raised e)
            ]
      ]
