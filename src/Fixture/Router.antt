-- ===== src/Fixture/Router.antt =====
-- The other handlers of internal/fixture/server.go, and the table of Handler that routes a
-- request to its handler.
use aero_arc_testing_harness.Prelude.{pos, List, [], ◌∷◌, Option, none, some, text, lookup}
use aero_arc_testing_harness.Fixture.Operation
use aero_arc_testing_harness.Fixture.Types.{
  FaultPlan, FaultSnapshot, Server, Request, PutRequest, Decoded, nothing, status_ok, message,
  events, no_subscriptions, details, Reply,
}
use aero_arc_testing_harness.Fixture.Wire.{write, write_json, record_event, respond}
use aero_arc_testing_harness.Fixture.Faults.{handle_fault, handle_clear_faults}
use aero_arc_testing_harness.Fixture.References.{
  unless_faulted, handle_rotate_ovn, handle_query_references, handle_state, handle_get_reference,
  handle_create_reference, handle_update_reference, handle_delete_reference,
}

-- handleReset.
unfoldable pub handle_reset : Server → Server × Reply
unfolding write_json
handle_reset s = (
  record s { references = []; faults = []; events = []; sequence = 0 },
  write_json (pos 204) nothing,
)

-- handleEvents.
unfoldable pub handle_events : Server → Server × Reply
unfolding write_json
handle_events s = (s, write_json (pos 200) (events s.events))

-- handleSubscriptions, after its fault.
unfoldable pub subscriptions : Request → Option FaultSnapshot → Server → Server × Reply
unfolding respond
subscriptions r fault s = respond r Operation.subscriptions [] (pos 200) no_subscriptions fault s

unfoldable pub handle_subscriptions : Request → Server → Server × Reply
unfolding unless_faulted subscriptions
handle_subscriptions r = unless_faulted r Operation.subscriptions [] (subscriptions r)

-- handlePeerDetails, after its fault.
unfoldable pub peer_details : Request → Option FaultSnapshot → Server → Server × Reply
peer_details r fault s = elim (lookup r.intent_id s.references) [
  | none ↦
      respond r Operation.peer_details r.intent_id (pos 404) (message (text "intent not found"))
        fault s
  | some current ↦ respond r Operation.peer_details r.intent_id (pos 200) (details current) fault s
]

unfoldable pub handle_peer_details : Request → Server → Server × Reply
unfolding unless_faulted peer_details
handle_peer_details r = unless_faulted r Operation.peer_details r.intent_id (peer_details r)

-- handlePeerNotification, after its fault.
unfoldable pub peer_notify : Request → Option FaultSnapshot → Server → Server × Reply
unfolding write
peer_notify r fault s =
    (record_event r Operation.peer_notify [] (pos 204) fault s, write (pos 204) nothing)

unfoldable pub handle_peer_notification : Request → Server → Server × Reply
unfolding unless_faulted peer_notify
handle_peer_notification r = unless_faulted r Operation.peer_notify [] (peer_notify r)

-- The entries of the routing table, with the body that the handler decodes.
pub data Route : Type 0 where
  health reset clear_faults list_events state rotate_ovn query_references : Route
  query_subscriptions get_reference delete_reference peer_details_of peer_notification : Route
  arm_fault : Decoded FaultPlan → Route
  create_reference update_reference : Decoded PutRequest → Route

-- Handler.
unfoldable pub handle : Route → Request → Server → Server × Reply
unfolding write_json
handle health r s = (s, write_json (pos 200) status_ok)
handle reset r s = handle_reset s
handle (arm_fault p) r s = handle_fault p s
handle clear_faults r s = handle_clear_faults s
handle list_events r s = handle_events s
handle state r s = handle_state r s
handle rotate_ovn r s = handle_rotate_ovn r s
handle query_references r s = handle_query_references r s
handle query_subscriptions r s = handle_subscriptions r s
handle get_reference r s = handle_get_reference r s
handle (create_reference body) r s = handle_create_reference r body s
handle (update_reference body) r s = handle_update_reference r body s
handle delete_reference r s = handle_delete_reference r s
handle peer_details_of r s = handle_peer_details r s
handle peer_notification r s = handle_peer_notification r s

-- A history of requests, one after the other.
unfoldable pub run : List (Route × Request) → Server → Server
run [] s = s
run ((route, r) ∷ rest) s = run rest (handle route r s).0
