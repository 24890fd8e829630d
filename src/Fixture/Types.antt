-- ===== src/Fixture/Types.antt =====
-- The data of internal/fixture/server.go: what the server keeps, what a request brings, and what
-- is written back. A JSON value that the code only copies is kept as its text, and an instant is
-- the number of nanoseconds since the epoch.
use aero_arc_testing_harness.Prelude.{
  ℕ, ℤ, Bool, List, [], Option, Text, text, Dict, trim_right, text_eq, if◌then◌else◌,
}

pub record FaultPlan : Type 0 where
  pub operation : Text
  pub times : ℤ
  pub status : ℤ
  pub delay_millis : ℤ
  pub close_after_commit : Bool
  pub malformed_json : Bool

pub record FaultSnapshot : Type 0 where
  pub status : ℤ
  pub delay_millis : ℤ
  pub close_after_commit : Bool
  pub malformed_json : Bool

pub record Event : Type 0 where
  pub sequence : ℕ
  pub at : ℤ
  pub operation : Text
  pub method : Text
  pub path : Text
  pub intent_id : Text
  pub status : ℤ
  pub fault : Option FaultSnapshot

pub record Reference : Type 0 where
  pub id : Text
  pub manager : Text
  pub ovn : Text
  pub state : Text
  pub subscription_id : Text
  pub uss_availability : Text
  pub uss_base_url : Text
  pub version : ℤ
  pub time_start : ℤ
  pub time_end : ℤ
  pub volumes : List Text

-- `now` is not here: the readings of the clock come with each request.
pub record Config : Type 0 where
  pub manager : Text
  pub peer_base_url : Text
  pub subscriber_url : Text

pub record Server : Type 0 where
  pub manager : Text
  pub peer_base_url : Text
  pub subscriber_url : Text
  pub sequence : ℕ
  pub references : Dict Reference
  pub faults : Dict FaultPlan
  pub events : List Event

pub record PutRequest : Type 0 where
  pub state : Text
  pub uss_base_url : Text
  pub extents : List Text

-- What `json.Decoder.Decode` makes of a body.
pub data Decoded (A : Type 0) : Type 0 where
  decoded : A → Decoded A
  undecodable : (message : Text) → Decoded A

-- A request as the handlers see it, with what its environment decides: the two readings of the
-- clock, whether the client is still there after a delay, whether its connection can be taken
-- over, and the order in which the map of references is ranged over.
pub record Request : Type 0 where
  pub method : Text
  pub request_uri : Text
  pub intent_id : Text
  pub ovn : Text
  pub now : ℤ
  pub recorded_at : ℤ
  pub outlasts : ℤ → Bool
  pub can_hijack : Bool
  pub range : List Reference → List Reference

-- The value handed to the JSON encoder. `subscriber` is the URL of the one subscriber, if any.
pub data Body : Type 0 where
  nothing : Body
  incomplete : Body
  status_ok : Body
  error : (what : Text) → Body
  message : (what : Text) → Body
  stale_ovn : (current_ovn : Text) → Body
  plan : FaultPlan → Body
  events : List Event → Body
  reference : Reference → Body
  references : List Reference → Body
  found : Reference → Body
  changed : Reference → (subscriber : Option Text) → Body
  no_subscriptions : Body
  details : Reference → Body

-- What reaches the client: a final status and a body, a connection that is closed with no answer
-- (`closed` by the handler, `aborted` by the HTTP server when the handler panics), or the empty
-- answer of a handler that wrote nothing.
pub data Reply : Type 0 where
  sent : (status : ℤ) → Body → Reply
  closed aborted unwritten : Reply

-- New.
unfoldable pub new : Config → Server
unfolding trim_right text_eq
new config = record {
  manager = if text_eq config.manager [] then text "fixture-dss" else config.manager;
  peer_base_url = trim_right b'/' config.peer_base_url;
  subscriber_url = trim_right b'/' config.subscriber_url;
  sequence = 0;
  references = [];
  faults = [];
  events = [];
}
