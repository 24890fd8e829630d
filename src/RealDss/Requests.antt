-- ===== src/RealDss/Requests.antt =====
-- The requests for the containers in internal/realdss/stack.go.
use aero_arc_testing_harness.Prelude.{ℤ, true, List, [], ◌∷◌, ◌++◌, Option, some, Text, text, Dict}
use aero_arc_testing_harness.Stacks.Types.{
  ContainerFile, for_http, for_log_and_exec, for_exit, FromDockerfile, ContainerRequest,
  zero_request,
}
use aero_arc_testing_harness.RealDss.Types.{
  Config, postgis_image, cockroach_image, dss_image, aero_arc_api_image, api_environment,
}

abbrev build : (context dockerfile repo : Text) → Option FromDockerfile
build context dockerfile repo = some (record {
  context = context;
  dockerfile = dockerfile;
  repo = repo;
  tag = text "real-e2e";
  keep_image = true;
})

abbrev pub postgis_request : (labels : Dict Text) → (startup_limit : ℤ) → ContainerRequest
postgis_request labels startup_limit = record zero_request {
  image = postgis_image;
  env =
      (text "POSTGRES_DB", text "aero_arc")
      ∷ (text "POSTGRES_USER", text "aero_arc")
      ∷ (text "POSTGRES_PASSWORD", text "aero_arc_test")
      ∷ [];
  exposed_ports = text "5432/tcp" ∷ [];
  labels = labels;
  waiting_for = some (
      for_log_and_exec (text "PostgreSQL init process complete; ready for start up.")
        (text "pg_isready" ∷ text "-U" ∷ text "aero_arc" ∷ text "-d" ∷ text "aero_arc" ∷ [])
        startup_limit);
}

module _ (config : Config) (labels : Dict Text) where
  abbrev pub crdb_request : ContainerRequest
  crdb_request = record zero_request {
    image = cockroach_image;
    cmd =
        text "start-single-node"
        ∷ text "--insecure"
        ∷ text "--listen-addr=:26257"
        ∷ text "--http-addr=:8080"
        ∷ [];
    exposed_ports = text "8080/tcp" ∷ [];
    labels = labels;
    waiting_for = some (for_http (text "/health?ready=1") (text "8080/tcp") config.startup_limit);
  }

  abbrev pub scd_migration_request : ContainerRequest
  scd_migration_request = record zero_request {
    from_dockerfile = build config.interuss_source (text "Dockerfile") (text "interuss-local/dss");
    cmd =
        text "/usr/bin/db-manager"
        ∷ text "migrate"
        ∷ text "--schemas_dir=/db-schemas/scd"
        ∷ text "--db_version=latest"
        ∷ text "--datastore_host=interuss-crdb"
        ∷ [];
    labels = labels;
    waiting_for = some (for_exit config.startup_limit);
  }

  abbrev pub migration_request : (schema : Text) → ContainerRequest
  migration_request schema = record zero_request {
    image = dss_image;
    cmd =
        text "/usr/bin/db-manager"
        ∷ text "migrate"
        ∷ (text "--schemas_dir=/db-schemas/" ++ schema)
        ∷ text "--db_version=latest"
        ∷ text "--datastore_host=interuss-crdb"
        ∷ [];
    labels = labels;
    waiting_for = some (for_exit config.startup_limit);
  }

  abbrev pub oauth_request : ContainerRequest
  oauth_request = record zero_request {
    from_dockerfile =
        build config.interuss_source (text "cmds/dummy-oauth/Dockerfile")
          (text "interuss-local/dummy-oauth");
    cmd = text "-private_key_file" ∷ text "/var/test-certs/auth2.key" ∷ [];
    exposed_ports = text "8085/tcp" ∷ [];
    labels = labels;
    waiting_for = some (
        for_http
          (text "/token?grant_type=client_credentials&scope=utm.strategic_coordination"
            ++ text "&intended_audience=localhost&issuer=localhost&sub=harness-readiness")
          (text "8085/tcp") config.startup_limit);
  }

  abbrev pub core_request : ContainerRequest
  core_request = record zero_request {
    image = dss_image;
    cmd =
        text "/usr/bin/core-service"
        ∷ text "-datastore_host"
        ∷ text "interuss-crdb"
        ∷ text "-public_key_files"
        ∷ text "/test-certs/auth2.pem"
        ∷ text "-log_format"
        ∷ text "console"
        ∷ text "-dump_requests"
        ∷ text "-addr"
        ∷ text ":8082"
        ∷ text "-accepted_jwt_audiences"
        ∷ text "localhost"
        ∷ text "-enable_scd"
        ∷ text "-allow_http_base_urls"
        ∷ text "-locality"
        ∷ text "aero_arc_e2e"
        ∷ text "-public_endpoint"
        ∷ text "http://interuss-dss:8082"
        ∷ [];
    exposed_ports = text "8082/tcp" ∷ [];
    labels = labels;
    waiting_for = some (for_http (text "/healthy") (text "8082/tcp") config.startup_limit);
  }

  -- The public key of the dummy OAuth server, which both participants check tokens with.
  abbrev pub key_files : List ContainerFile
  key_files =
      record {
        host_file_path =
            config.interuss_source ∷ text "build" ∷ text "test-certs" ∷ text "auth2.pem" ∷ [];
        container_file_path = text "/interuss-auth-public.pem";
        file_mode = 292;
      }
      ∷ []

  abbrev pub uss_a_request : ContainerRequest
  uss_a_request = record zero_request {
    from_dockerfile = build config.api_source (text "Dockerfile") (text "aero-arc-api");
    env = api_environment (text "a") (text "uss-a") (text "postgis-a");
    files = key_files;
    exposed_ports = text "8080/tcp" ∷ [];
    labels = labels;
    waiting_for = some (for_http (text "/readyz") (text "8080/tcp") config.startup_limit);
  }

  abbrev pub uss_b_request : ContainerRequest
  uss_b_request = record zero_request {
    image = aero_arc_api_image;
    env = api_environment (text "b") (text "uss-b") (text "postgis-b");
    files = key_files;
    exposed_ports = text "8080/tcp" ∷ [];
    labels = labels;
    waiting_for = some (for_http (text "/readyz") (text "8080/tcp") config.startup_limit);
  }
