-- ===== src/Fixture/Samples.antt =====
-- Requests and servers for the tests of internal/fixture/server.go.
use aero_arc_testing_harness.Prelude.{pos, true, false, List, [], ◌∷◌, Text, text}
use aero_arc_testing_harness.Fixture.Types.{
  FaultPlan, Reference, Config, Server, Request, PutRequest, decoded, new,
}
use aero_arc_testing_harness.Fixture.Router.{Route, run}

abbrev pub intent : Text
intent = text "i1"

abbrev pub request : Text → Text → Request
request intent_id ovn = record {
  method = text "PUT";
  request_uri = text "/dss/v1/operational_intent_references/i1";
  intent_id = intent_id;
  ovn = ovn;
  now = pos 90_000_000_000;
  recorded_at = pos 90_000_000_001;
  outlasts = λ d. true;
  can_hijack = true;
  range = λ l. l;
}

abbrev pub accepted : PutRequest
accepted = record { state = text "Accepted"; uss_base_url = []; extents = text "{}" ∷ [] }

abbrev pub config : Config
config = record { manager = []; peer_base_url = text "http://peer/"; subscriber_url = [] }

-- The intent is created and its OVN rotated once.
abbrev pub rotated_history : List (Route × Request)
rotated_history =
    (Route.create_reference (decoded accepted), request intent [])
    ∷ (Route.rotate_ovn, request intent [])
    ∷ []

unfoldable pub rotated : Server
unfolding run
rotated = run rotated_history (new config)

abbrev pub failing : FaultPlan
failing = record {
  operation = text "dss.query_references";
  times = pos 2;
  status = pos 503;
  delay_millis = pos 0;
  close_after_commit = false;
  malformed_json = false;
}

-- The entry of the intent in `rotated`.
abbrev pub entry : Reference
entry = record {
  id = intent;
  manager = text "fixture-dss";
  ovn = text "ovn-i1-2";
  state = text "Accepted";
  subscription_id = text "33333333-3333-4333-8333-333333333333";
  uss_availability = text "Normal";
  uss_base_url = text "http://peer";
  version = pos 2;
  time_start = pos 30_000_000_000;
  time_end = pos 3_630_000_000_000;
  volumes = text "{}" ∷ [];
}
