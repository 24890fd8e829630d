-- ===== src/Fixture/Endpoints.antt =====
-- The DSS and peer endpoints of internal/fixture/server.go by their common shape: a fault is
-- taken, it may end the request, and otherwise the endpoint serves it.
use aero_arc_testing_harness.Prelude.{◌≡◌, refl, subst, true, false, [], Option, none, some, Text}
use aero_arc_testing_harness.Fixture.Operation
use aero_arc_testing_harness.Fixture.Types.{FaultSnapshot, Server, Request, Reply}
use aero_arc_testing_harness.Fixture.Types.{unwritten}
use aero_arc_testing_harness.Fixture.References.{
  unless_faulted, put_decoded, delete, get_reference, query_references, handle_query_references,
  handle_get_reference, handle_create_reference, handle_update_reference, handle_delete_reference,
}
use aero_arc_testing_harness.Fixture.Router.{
  Route, handle, subscriptions, peer_details, peer_notify, handle_subscriptions,
  handle_peer_details, handle_peer_notification,
}

-- The operation whose faults a route takes: none for the control plane.
abbrev pub operation_of : Route → Option Text
operation_of Route.query_references = some Operation.query_references
operation_of Route.query_subscriptions = some Operation.subscriptions
operation_of Route.get_reference = some Operation.get_reference
operation_of Route.delete_reference = some Operation.delete_reference
operation_of Route.peer_details_of = some Operation.peer_details
operation_of Route.peer_notification = some Operation.peer_notify
operation_of (Route.create_reference body) = some Operation.create_reference
operation_of (Route.update_reference body) = some Operation.update_reference
operation_of _ = none

-- The intent under which a route's requests are recorded.
abbrev pub intent_of : Route → Request → Text
intent_of Route.query_references r = []
intent_of Route.query_subscriptions r = []
intent_of Route.peer_notification r = []
intent_of _ r = r.intent_id

-- What an endpoint does once its fault is taken and has not ended the request.
unfoldable pub served : Route → Request → Option FaultSnapshot → Server → Server × Reply
served Route.query_references r = query_references r
served Route.query_subscriptions r = subscriptions r
served Route.get_reference r = get_reference r
served Route.delete_reference r = delete r
served Route.peer_details_of r = peer_details r
served Route.peer_notification r = peer_notify r
served (Route.create_reference body) r = put_decoded r body true
served (Route.update_reference body) r = put_decoded r body false
served _ r = λ fault s. (s, unwritten)

abbrev IsServed : Route → Request → Server → Option Text → Type 0
IsServed route r s none = Unit
IsServed route r s (some operation) =
    handle route r s ≡ unless_faulted r operation (intent_of route r) (served route r) s

operation_of-IsServed :
    (route : Route) (r : Request) (s : Server) → IsServed route r s (operation_of route)
unfolding handle served handle_query_references handle_subscriptions handle_get_reference
    handle_create_reference handle_update_reference handle_delete_reference handle_peer_details
    handle_peer_notification
operation_of-IsServed Route.query_references r s = refl
operation_of-IsServed Route.query_subscriptions r s = refl
operation_of-IsServed Route.get_reference r s = refl
operation_of-IsServed Route.delete_reference r s = refl
operation_of-IsServed Route.peer_details_of r s = refl
operation_of-IsServed Route.peer_notification r s = refl
operation_of-IsServed (Route.create_reference body) r s = refl
operation_of-IsServed (Route.update_reference body) r s = refl
operation_of-IsServed _ r s = tt

pub handle-served :
    (route : Route) (r : Request) (s : Server) {operation : Text}
    → operation_of route ≡ some operation
    → handle route r s ≡ unless_faulted r operation (intent_of route r) (served route r) s
handle-served route r s e = subst (IsServed route r s) e (operation_of-IsServed route r s)
