-- ===== src/Stacks/Startup.antt =====
-- Start of internal/stack/stack.go, NewClient of internal/toxiproxy/client.go, and what they are
-- given: the files, the clock, the order of a map and the parsing of URLs are arguments.
use aero_arc_testing_harness.Prelude.{
  ℤ, pos, leb_ℤ, ◌||◌, List, [], ◌∷◌, ◌++◌, Option, none, some, Text, text, text_eq, trim_right,
  if◌then◌else◌, decimal_int, Dict, insert, Outcome, ok, failed,
}
use aero_arc_testing_harness.Injection.Client.{Call, create_proxy}
use aero_arc_testing_harness.Reports.Bundle.{Files}
use aero_arc_testing_harness.Stacks.Types.{Docker, Stack, Manifest, api}
use aero_arc_testing_harness.Stacks.Lifecycle.{endpoint, write_manifest, close}
use aero_arc_testing_harness.Stacks.Upkeep.{LogFiles, capture}
use aero_arc_testing_harness.Stacks.Actions.{
  message, Result, value, raised, Done, Action, ◌>>=◌, ◌>>◌, call, effect, proxying, update, launch,
  first_missing,
}
use aero_arc_testing_harness.Stacks.Requests.{
  Config, postgis_request, fixture_request, toxiproxy_request, first_api_request,
}

-- What a Start calls on a world `W` with containers `C`; `now` is in seconds, `join` is
-- filepath.Join, and `range` the order in which a map is ranged over.
pub record Host (C W : Type 0) : Type 1 where
  pub docker : Docker C W
  pub files : Files W
  pub logs : LogFiles C W
  pub stat : List Text → W → Option Text
  pub now : W → ℤ
  pub join : List Text → Text
  pub range : Dict C → Dict C

-- A URL that url.Parse accepts, and what String makes of it.
pub record Url : Type 0 where
  pub scheme : Text
  pub host : Text
  pub printed : Text

-- What the client of Toxiproxy calls; `quote` prints a string with %q.
pub record Control (W : Type 0) : Type 1 where
  pub parse : Text → Outcome Url
  pub quote : Text → Text
  pub escape : Text → Text
  pub send : (base_url : Text) → Call → W → W × Outcome ℤ

-- NewClient: the base URL of the client.
unfoldable pub new_client : {W : Type 0} → Control W → (base_url : Text) → Outcome Text
new_client control base_url =
    let invalid = failed (text "invalid Toxiproxy URL " ++ control.quote base_url) in
    elim (control.parse (trim_right 47 base_url)) [
      | failed e ↦ invalid
      | ok u ↦ if text_eq u.scheme [] || text_eq u.host [] then invalid else ok u.printed
    ]

abbrev pub bounded : Config → Config
bounded config = record config {
  startup_limit =
      if leb_ℤ config.startup_limit (pos 0) then pos 240_000_000_000 else config.startup_limit;
}

abbrev pub required : Config → List (List Text)
required config =
    (config.root_dir ∷ text "Dockerfile.fixture" ∷ [])
    ∷ (config.api_source ∷ text "Dockerfile" ∷ [])
    ∷ (config.api_source ∷ text "go.mod" ∷ [])
    ∷ (config.root_dir ∷ text "testdata" ∷ text "keys" ∷ text "uss-auth-public.pem" ∷ [])
    ∷ []

abbrev pub new_stack : {C : Type 0} → (now : ℤ) → Config → Stack C
new_stack now config = record {
  run_id = text "e2e-" ++ decimal_int now ++ text "-" ++ decimal_int config.seed;
  seed = config.seed;
  artifact_dir = config.artifact_dir;
  api_base_url = [];
  fixture_control_url = [];
  database_url = [];
  toxiproxy_url = [];
  toxiproxy = none;
  network = none;
  containers = [];
  root_dir = config.root_dir;
}

abbrev pub register : {C : Type 0} → Text → C → Stack C → Stack C
register alias c s = record s { containers = insert alias c s.containers }

abbrev pub database_url_at : (endpoint : Text) → Text
database_url_at at =
    text "postgres://aero_arc:aero_arc_test@" ++ at ++ text "/aero_arc?sslmode=disable"

-- The deferred Capture and Close, whose errors are dropped.
unfoldable pub clean_up : {C W : Type 0} → Host C W → Stack C → W → W
clean_up host s w = (close host.docker s (capture host.logs host.range s w).0).0

module _ {C W : Type 0} (host : Host C W) (control : Control W)
    (marshal : Manifest → Outcome Text) where
  -- From the network to the manifest.
  unfoldable pub provision : Config → (run_id : Text) → Action (W × Stack C) Done
  provision config run_id = do
    let run_label = (text "aero-arc.io/test-run", run_id) ∷ []
    let labels = run_label ++ (text "aero-arc.io/seed", decimal_int config.seed) ∷ []
    network ← call (text "create test network: ") (host.docker.new_network run_label)
    update (λ s. record s { network = some network })
    postgis ←
        launch host.docker register network (text "start PostGIS: ") (text "postgis")
          (postgis_request config labels)
    fixture ←
        launch host.docker register network (text "start DSS/peer fixture: ") (text "fixture")
          (fixture_request config labels)
    fixture_url ← call [] (endpoint host.docker fixture (text "8081/tcp") (text "http"))
    update (λ s. record s { fixture_control_url = fixture_url })
    toxi ←
        launch host.docker register network (text "start Toxiproxy: ") (text "toxiproxy")
          (toxiproxy_request config labels)
    toxi_url ← call [] (endpoint host.docker toxi (text "8474/tcp") (text "http"))
    update (λ s. record s { toxiproxy_url = toxi_url })
    client ← call [] (λ w. (w, new_client control toxi_url))
    update (λ s. record s { toxiproxy = some client })
    proxying (
        create_proxy (control.send client) control.escape (text "dss") (text "0.0.0.0:8666")
          (text "fixture:8081"))
    server ←
        launch host.docker register network (text "start Aero Arc API: ") api
          (first_api_request config labels)
    api_url ← call [] (endpoint host.docker server (text "8080/tcp") (text "http"))
    update (λ s. record s { api_base_url = api_url })
    database ← call [] (endpoint host.docker postgis (text "5432/tcp") [])
    update (λ s. record s { database_url = database_url_at database })
    effect (λ s w. write_manifest host.files marshal (host.now w) s w)

  unfoldable pub start : Config → W → W × Result (Stack C)
  start config w =
      if text_eq config.root_dir []
        || text_eq config.api_source []
        || text_eq config.artifact_dir []
      then (w, raised (message (text "root, API source, and artifact directories are required")))
      else elim (first_missing host.stat (required config) w) [
        | some (path, e) ↦ (
          w,
          raised (message (text "required harness input " ++ host.join path ++ text ": " ++ e)),
        )
        | none ↦
            let fresh = new_stack (host.now w) config in
            let r = provision (bounded config) fresh.run_id (w, fresh) in
            elim r.1 [
              | value d ↦ (r.0.0, value r.0.1)
              | raised e ↦ (clean_up host r.0.1 r.0.0, raised e)
            ]
      ]
