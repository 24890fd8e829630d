-- ===== src/Stacks/Requests.antt =====
-- The configuration of Start of internal/stack/stack.go, and the requests for its containers.
use aero_arc_testing_harness.Prelude.{ℤ, true, [], ◌∷◌, some, Text, text, Dict}
use aero_arc_testing_harness.Stacks.Types.{
  for_http, for_listening_port, for_log_and_exec, ContainerRequest, zero_request, api_environment,
  api_files,
}

pub record Config : Type 0 where
  pub root_dir : Text
  pub api_source : Text
  pub artifact_dir : Text
  pub seed : ℤ
  pub startup_limit : ℤ

module _ (config : Config) (labels : Dict Text) where
  abbrev pub postgis_request : ContainerRequest
  postgis_request = record zero_request {
    image = text "postgis/postgis:14-3.5-alpine";
    env =
        (text "POSTGRES_DB", text "aero_arc")
        ∷ (text "POSTGRES_USER", text "aero_arc")
        ∷ (text "POSTGRES_PASSWORD", text "aero_arc_test")
        ∷ [];
    exposed_ports = text "5432/tcp" ∷ [];
    labels = labels;
    waiting_for = some (
        for_log_and_exec (text "PostgreSQL init process complete; ready for start up.")
          (text "pg_isready" ∷ text "-U" ∷ text "aero_arc" ∷ text "-d" ∷ text "aero_arc" ∷ [])
          config.startup_limit);
  }

  abbrev pub fixture_request : ContainerRequest
  fixture_request = record zero_request {
    from_dockerfile = some (record {
      context = config.root_dir;
      dockerfile = text "Dockerfile.fixture";
      repo = text "aero-arc-fault-fixture";
      tag = text "e2e";
      keep_image = true;
    });
    cmd =
        text "-peer-base-url"
        ∷ text "http://fixture:8081"
        ∷ text "-subscriber-url"
        ∷ text "http://fixture:8081"
        ∷ [];
    exposed_ports = text "8081/tcp" ∷ [];
    labels = labels;
    waiting_for = some (for_http (text "/healthz") (text "8081/tcp") config.startup_limit);
  }

  abbrev pub toxiproxy_request : ContainerRequest
  toxiproxy_request = record zero_request {
    image = text "ghcr.io/shopify/toxiproxy:2.12.0";
    exposed_ports = text "8474/tcp" ∷ text "8666/tcp" ∷ [];
    labels = labels;
    waiting_for = some (for_listening_port (text "8474/tcp") config.startup_limit);
  }

  abbrev pub first_api_request : ContainerRequest
  first_api_request = record zero_request {
    from_dockerfile = some (record {
      context = config.api_source;
      dockerfile = text "Dockerfile";
      repo = text "aero-arc-api";
      tag = text "e2e";
      keep_image = true;
    });
    env = api_environment (text "demo");
    files = api_files config.root_dir;
    exposed_ports = text "8080/tcp" ∷ [];
    labels = labels;
    waiting_for = some (for_http (text "/readyz") (text "8080/tcp") config.startup_limit);
  }
