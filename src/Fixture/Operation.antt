-- ===== src/Fixture/Operation.antt =====
-- The names of the operations of internal/fixture/server.go, for which faults are armed.
use aero_arc_testing_harness.Prelude.{Text, text}

abbrev pub query_references : Text
query_references = text "dss.query_references"

abbrev pub get_reference : Text
get_reference = text "dss.get_reference"

abbrev pub create_reference : Text
create_reference = text "dss.create_reference"

abbrev pub update_reference : Text
update_reference = text "dss.update_reference"

abbrev pub delete_reference : Text
delete_reference = text "dss.delete_reference"

abbrev pub subscriptions : Text
subscriptions = text "dss.query_subscriptions"

abbrev pub peer_details : Text
peer_details = text "peer.get_details"

abbrev pub peer_notify : Text
peer_notify = text "peer.notify"
