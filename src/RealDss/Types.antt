-- ===== src/RealDss/Types.antt =====
-- The data of internal/realdss/stack.go, and the requests for its containers.
use aero_arc_testing_harness.Prelude.{
  ℤ, pos, leb_ℤ, List, [], ◌∷◌, ◌++◌, Option, none, Text, text, text_eq, if◌then◌else◌, decimal_int,
  Dict, insert,
}

pub record Config : Type 0 where
  pub root_dir : Text
  pub api_source : Text
  pub interuss_source : Text
  pub api_source_revision : Text
  pub dss_source_revision : Text
  pub artifact_dir : Text
  pub seed : ℤ
  pub startup_limit : ℤ

pub record Participant : Type 0 where
  pub name : Text
  pub subject : Text
  pub api_base_url : Text
  pub database_url : Text

pub record Environment (C : Type 0) : Type 0 where
  pub run_id : Text
  pub seed : ℤ
  pub artifact_dir : Text
  pub dss_base_url : Text
  pub oauth_url : Text
  pub uss_a : Participant
  pub uss_b : Participant
  pub network : Option Text
  pub containers : Dict C

-- What stack.json tells of an environment.
pub record Manifest : Type 0 where
  pub run_id : Text
  pub seed : ℤ
  pub tier : Text
  pub created_at : ℤ
  pub images : Dict Text
  pub source_revisions : Dict Text
  pub endpoints : Dict Text
  pub participants : List Participant

abbrev pub postgis_image : Text
postgis_image = text "postgis/postgis:14-3.5-alpine"

abbrev pub cockroach_image : Text
cockroach_image = text "cockroachdb/cockroach:v24.1.3"

abbrev pub dss_image : Text
dss_image = text "interuss-local/dss:real-e2e"

abbrev pub oauth_image : Text
oauth_image = text "interuss-local/dummy-oauth:real-e2e"

abbrev pub aero_arc_api_image : Text
aero_arc_api_image = text "aero-arc-api:real-e2e"

abbrev pub crdb : Text
crdb = text "interuss-crdb"

abbrev pub scd_migration : Text
scd_migration = text "interuss-scd-migration"

-- The name of the migration of a schema.
unfoldable pub migration_name : (schema : Text) → Text
migration_name schema =
    if text_eq schema (text "aux_")
    then text "interuss-aux-migration"
    else text "interuss-" ++ schema ++ text "-migration"

abbrev pub bounded : Config → Config
bounded config = record config {
  startup_limit =
      if leb_ℤ config.startup_limit (pos 0) then pos 720_000_000_000 else config.startup_limit;
}

abbrev pub required : Config → List (List Text)
required config =
    (config.api_source ∷ text "Dockerfile" ∷ [])
    ∷ (config.api_source ∷ text "go.mod" ∷ [])
    ∷ (config.interuss_source ∷ text "Dockerfile" ∷ [])
    ∷ (config.interuss_source ∷ text "cmds" ∷ text "dummy-oauth" ∷ text "Dockerfile" ∷ [])
    ∷ (config.interuss_source ∷ text "build" ∷ text "test-certs" ∷ text "auth2.pem" ∷ [])
    ∷ []

abbrev pub no_participant : Participant
no_participant = record { name = []; subject = []; api_base_url = []; database_url = [] }

abbrev pub new_environment : {C : Type 0} → (now : ℤ) → Config → Environment C
new_environment now config = record {
  run_id = text "real-dss-" ++ decimal_int now ++ text "-" ++ decimal_int config.seed;
  seed = config.seed;
  artifact_dir = config.artifact_dir;
  dss_base_url = [];
  oauth_url = [];
  uss_a = no_participant;
  uss_b = no_participant;
  network = none;
  containers = [];
}

abbrev pub labels_of : (run_id : Text) → Config → Dict Text
labels_of run_id config =
    (text "aero-arc.io/test-run", run_id)
    ∷ (text "aero-arc.io/seed", decimal_int config.seed)
    ∷ (text "aero-arc.io/tier", text "real-dss")
    ∷ []

abbrev pub register : {C : Type 0} → Text → C → Environment C → Environment C
register alias c e = record e { containers = insert alias c e.containers }

abbrev pub api_environment : (suffix alias database_alias : Text) → Dict Text
api_environment suffix alias database_alias =
    (text "AERO_API_ADDR", text ":8080")
    ∷ (text "AERO_API_DURABLE_STORE", text "postgres")
    ∷ (
      text "AERO_API_DATABASE_URL",
      text "postgres://aero_arc:aero_arc_test@"
          ++ database_alias
          ++ text ":5432/aero_arc?sslmode=disable",
    )
    ∷ (text "AERO_API_AIRSPACE_PROVIDERS", text "local,interuss")
    ∷ (text "AERO_API_DSS_BASE_URL", text "http://interuss-dss:8082")
    ∷ (text "AERO_API_DSS_OAUTH_TOKEN_URL", text "http://interuss-oauth:8085/token")
    ∷ (text "AERO_API_DSS_OAUTH_AUDIENCE", text "localhost")
    ∷ (text "AERO_API_DSS_OAUTH_ISSUER", text "localhost")
    ∷ (text "AERO_API_DSS_OAUTH_SUBJECT", text "uss-" ++ suffix)
    ∷ (text "AERO_API_DSS_ALLOW_INSECURE_PEER_URLS", text "true")
    ∷ (text "AERO_API_USS_BASE_URL", text "http://" ++ alias ++ text ":8080")
    ∷ (text "AERO_API_USS_JWT_PUBLIC_KEY_FILE", text "/interuss-auth-public.pem")
    ∷ (text "AERO_API_USS_JWT_ISSUER", text "localhost")
    ∷ (text "AERO_API_USS_JWT_AUDIENCE", text "localhost")
    ∷ (text "AERO_API_REQUEST_TIMEOUT", text "3s")
    ∷ (text "AERO_API_TELEMETRY_STORE", text "memory")
    ∷ (text "AERO_API_REPLAY_STORE", text "memory")
    ∷ (text "AERO_API_REGISTRY_MODE", text "memory")
    ∷ (text "AERO_API_SEED", text "demo")
    ∷ []
