-- ===== src/Stacks/Lifecycle.antt =====
-- The operations on a stack that is up, in internal/stack/stack.go: StopAPI,
-- StartAPI, StartReplacementAPI, writeManifest and Close.
use aero_arc_testing_harness.Prelude.{
  ℤ, pos, List, [], ◌∷◌, ◌++◌, Option, none, some, Text, text, text_eq, if◌then◌else◌, decimal_int,
  Dict, lookup, insert, Outcome, ok, failed,
}
use aero_arc_testing_harness.Reports.Bundle.{Files}
use aero_arc_testing_harness.Stacks.Readiness.{Round, Waiting, finished, wait_for_api}
use aero_arc_testing_harness.Stacks.Types.{
  Manifest, ContainerRequest, zero_request, for_http, Launch, launched, not_launched, Docker, Stack,
  api, crashed, api_environment, api_files,
}

abbrev pub not_available : Text
not_available = text "Aero Arc API container is not available"

-- Reverse dependency order.
abbrev pub closing_order : List Text
closing_order = api ∷ crashed ∷ text "toxiproxy" ∷ text "fixture" ∷ text "postgis" ∷ []

-- The first error is kept, wrapped in what was tried.
abbrev pub first_error : Option Text → (what : Text) → Option Text → Option Text
first_error (some e) what o = some e
first_error none what none = none
first_error none what (some e) = some (what ++ e)

module _ {C : Type 0} where
  abbrev pub api_request : Stack C → ContainerRequest
  api_request s = record zero_request {
    image = text "aero-arc-api:e2e";
    env = api_environment (text "none");
    files = api_files s.root_dir;
    exposed_ports = text "8080/tcp" ∷ [];
    labels =
        (text "aero-arc.io/test-run", s.run_id)
        ∷ (text "aero-arc.io/seed", decimal_int s.seed)
        ∷ [];
    waiting_for = some (for_http (text "/readyz") (text "8080/tcp") (pos 30_000_000_000));
  }

  -- The stack with the replacement in the place of the API.
  abbrev pub replaced : (previous replacement : C) (url : Text) → Stack C → Stack C
  replaced previous replacement url s = record s {
    containers = insert api replacement (insert crashed previous s.containers);
    api_base_url = url;
  }

  abbrev pub manifest_of : (now : ℤ) → Stack C → Manifest
  manifest_of now s = record {
    run_id = s.run_id;
    seed = s.seed;
    created_at = now;
    images =
        (text "postgis", text "postgis/postgis:14-3.5-alpine")
        ∷ (text "toxiproxy", text "ghcr.io/shopify/toxiproxy:2.12.0")
        ∷ [];
    endpoints =
        (text "api", s.api_base_url)
        ∷ (text "fixture_control", s.fixture_control_url)
        ∷ (text "toxiproxy", s.toxiproxy_url)
        ∷ [];
  }

module _ {C W : Type 0} where
  unfoldable pub write_manifest :
      (files : Files W) (marshal : Manifest → Outcome Text) (now : ℤ)
      → Stack C
      → W
      → W × Option Text
  write_manifest files marshal now s w = elim (marshal (manifest_of now s)) [
    | failed e ↦ (w, some e)
    | ok encoded ↦
        let made = files.make_directory s.artifact_dir w in
        elim made.1 [
          | some e ↦ (made.0, some e)
          | none ↦ files.write_file s.artifact_dir (text "stack.json") (encoded ++ 10 ∷ []) made.0
        ]
  ]

module _ {C W : Type 0} (docker : Docker C W) where
  unfoldable pub start_container : (network alias : Text) → ContainerRequest → W → W × Launch C
  start_container network alias request w =
      docker.generic_container
        (record request { networks = network ∷ []; network_aliases = (network, alias ∷ []) ∷ [] }) w

  unfoldable pub endpoint : C → (port scheme : Text) → W → W × Outcome Text
  endpoint c port scheme w =
      let h = docker.host c w in
      elim h.1 [
        | failed e ↦ (h.0, failed (text "resolve container host: " ++ e))
        | ok host ↦
            let m = docker.mapped_port c port h.0 in
            elim m.1 [
              | failed e ↦ (m.0, failed (text "resolve mapped port " ++ port ++ text ": " ++ e))
              | ok mapped ↦
                  let value = host ++ text ":" ++ mapped in
                  (m.0, ok (if text_eq scheme [] then value else scheme ++ text "://" ++ value))
            ]
      ]

  unfoldable pub stop_api : Stack C → W → W × Option Text
  stop_api s w = elim (lookup api s.containers) [
    | none ↦ (w, some not_available)
    | some c ↦
        let r = docker.stop c w in
        (r.0, elim r.1 [ none ↦ none | some e ↦ some (text "stop Aero Arc API: " ++ e) ])
  ]

  -- Close without the network: the containers of some names, and the first error.
  unfoldable pub terminate_all : List Text → Dict C → Option Text → W → W × Option Text
  terminate_all [] containers first w = (w, first)
  terminate_all (name ∷ rest) containers first w = elim (lookup name containers) [
    | none ↦ terminate_all rest containers first w
    | some c ↦
        let r = docker.terminate c w in
        terminate_all rest containers
          (first_error first (text "terminate " ++ name ++ text ": ") r.1) r.0
  ]

  unfoldable pub close : Stack C → W → W × Option Text
  close s w =
      let t = terminate_all closing_order s.containers none w in
      elim s.network [
        | none ↦ t
        | some n ↦
            let r = docker.remove_network n t.0 in
            (r.0, first_error t.1 (text "remove network: ") r.1)
      ]

  -- StartReplacementAPI; `network` is the name of the stack's network.
  unfoldable pub start_replacement_api :
      (files : Files W) (marshal : Manifest → Outcome Text) (now : ℤ) (network : Text)
      → Stack C
      → W
      → (W × Stack C) × Option Text
  start_replacement_api files marshal now network s w = elim (lookup api s.containers) [
    | none ↦ ((w, s), some not_available)
    | some previous ↦
        if docker.is_running previous w
        then ((w, s), some (text "Aero Arc API must be stopped before replacement"))
        else let started = start_container network api (api_request s) w in
          elim started.1 [
            | not_launched left e ↦
                ((started.0, s), some (text "start replacement Aero Arc API: " ++ e))
            | launched replacement ↦
                let found = endpoint replacement (text "8080/tcp") (text "http") started.0 in
                elim found.1 [
                  | failed e ↦ (((docker.terminate replacement found.0).0, s), some e)
                  | ok url ↦
                      let s' = replaced previous replacement url s in
                      let written = write_manifest files marshal now s' found.0 in
                      ((written.0, s'), written.1)
                ]
          ]
  ]

  -- StartAPI; what makes no request and how the rounds go may hang on the URL.
  unfoldable pub start_api :
      (bad_url : Text → Option Text) (rounds : Text → List Round)
      → Stack C
      → W
      → (W × Stack C) × Waiting
  start_api bad_url rounds s w = elim (lookup api s.containers) [
    | none ↦ ((w, s), finished (some not_available))
    | some c ↦
        if docker.is_running c w
        then ((w, s), finished none)
        else let r = docker.start c w in
          elim r.1 [
            | some e ↦ ((r.0, s), finished (some (text "start Aero Arc API: " ++ e)))
            | none ↦
                let found = endpoint c (text "8080/tcp") (text "http") r.0 in
                elim found.1 [
                  | failed e ↦ ((found.0, s), finished (some e))
                  | ok url ↦ (
                    (found.0, record s { api_base_url = url }),
                    wait_for_api (bad_url url) (rounds url),
                  )
                ]
          ]
  ]
