-- ===== src/Fixture/References.antt =====
-- The operations on references of internal/fixture/server.go: the DSS endpoints and the rotation
-- of an OVN from the control plane.
use aero_arc_testing_harness.Prelude.{
  ℤ, pos, Bool, true, false, [], ◌++◌, Option, none, some, Text, text, text_eq, if◌then◌else◌,
  lookup, insert, erase, values, ◌+ℤ◌, ◌-ℤ◌, decimal_int, increment,
}
use aero_arc_testing_harness.Fixture.Operation
use aero_arc_testing_harness.Fixture.Types.{
  FaultSnapshot, Server, Request, Reference, PutRequest, Decoded, decoded, undecodable, Body, error,
  message, stale_ovn, reference, references, found, changed, Reply,
}
use aero_arc_testing_harness.Fixture.Wire.{
  write_json, record_event, respond, close_connection, closes,
}
use aero_arc_testing_harness.Fixture.Faults.{take_fault, pre_commit_fault}

-- fmt.Sprintf("ovn-%s-%d", id, version).
unfoldable pub ovn_of : Text → ℤ → Text
ovn_of id version = text "ovn-" ++ (id ++ (text "-" ++ decimal_int version))

-- A reference under its next version and OVN.
unfoldable pub bump : Text → Reference → Reference
bump id current = record current {
  version = increment current.version;
  ovn = ovn_of id (increment current.version);
}

-- handleRotateOVN.
unfoldable pub handle_rotate_ovn : Request → Server → Server × Reply
unfolding lookup
handle_rotate_ovn r s = elim (lookup r.intent_id s.references) [
  | none ↦ (s, write_json (pos 404) (error (text "reference not found")))
  | some current ↦ (
    record s { references = insert r.intent_id (bump r.intent_id current) s.references },
    write_json (pos 200) (reference (bump r.intent_id current)),
  )
]

-- What a handler does once its fault is taken: it answers at once, or goes on.
unfoldable pub unless_faulted :
    Request
    → Text
    → Text
    → (Option FaultSnapshot → Server → Server × Reply)
    → Server
    → Server × Reply
unless_faulted r operation intent_id handler s =
    let (s', fault) = take_fault operation s in
    elim (pre_commit_fault r operation intent_id fault s') [
      | some outcome ↦ outcome
      | none ↦ handler fault s'
    ]

-- handleQueryReferences, after its fault.
unfoldable pub query_references : Request → Option FaultSnapshot → Server → Server × Reply
unfolding respond
query_references r fault s =
    respond r Operation.query_references [] (pos 200) (references (r.range (values s.references)))
      fault s

unfoldable pub handle_query_references : Request → Server → Server × Reply
unfolding unless_faulted query_references
handle_query_references r = unless_faulted r Operation.query_references [] (query_references r)

-- handleState.
unfoldable pub handle_state : Request → Server → Server × Reply
handle_state r s = (s, write_json (pos 200) (references (r.range (values s.references))))

-- handleGetReference, after its fault.
unfoldable pub get_reference : Request → Option FaultSnapshot → Server → Server × Reply
get_reference r fault s = elim (lookup r.intent_id s.references) [
  | none ↦
      respond r Operation.get_reference r.intent_id (pos 404) (message (text "reference not found"))
        fault s
  | some current ↦ respond r Operation.get_reference r.intent_id (pos 200) (found current) fault s
]

unfoldable pub handle_get_reference : Request → Server → Server × Reply
unfolding unless_faulted get_reference
handle_get_reference r = unless_faulted r Operation.get_reference r.intent_id (get_reference r)

abbrev pub put_operation : Bool → Text
put_operation create = if create then Operation.create_reference else Operation.update_reference

abbrev pub put_status : Bool → ℤ
put_status create = if create then pos 201 else pos 200

-- Why a put is turned down, from the entry that is there.
unfoldable pub put_refusal : Bool → Text → Option Reference → Option (ℤ × Body)
put_refusal true ovn none = none
put_refusal true ovn (some current) = some (pos 409, message (text "reference exists"))
put_refusal false ovn none = some (pos 404, message (text "reference not found"))
put_refusal false ovn (some current) =
    if text_eq ovn current.ovn then none else some (pos 409, stale_ovn current.ovn)

-- The version of the entry that is there; the zero value where there is none.
abbrev pub version_of : Option Reference → ℤ
version_of none = pos 0
version_of (some current) = current.version

abbrev pub minute : ℤ
minute = pos 60_000_000_000

abbrev pub hour : ℤ
hour = pos 3_600_000_000_000

-- The reference that a put stores.
unfoldable pub put_reference : Request → PutRequest → ℤ → Server → Reference
put_reference r body version s = record {
  id = r.intent_id;
  manager = s.manager;
  ovn = ovn_of r.intent_id version;
  state = body.state;
  subscription_id = text "33333333-3333-4333-8333-333333333333";
  uss_availability = text "Normal";
  uss_base_url = if text_eq body.uss_base_url [] then s.peer_base_url else body.uss_base_url;
  version = version;
  time_start = r.now -ℤ minute;
  time_end = r.now -ℤ minute +ℤ hour;
  volumes = body.extents;
}

-- The one subscriber that a put announces.
unfoldable pub subscriber : Server → Option Text
subscriber s = if text_eq s.subscriber_url [] then none else some s.subscriber_url

-- The end of a put or a delete whose change is committed: the connection is closed on a fault
-- that says so, and otherwise the change is reported.
unfoldable pub conclude : Request → Text → ℤ → Body → Option FaultSnapshot → Server → Server × Reply
conclude r operation status payload fault s =
    if closes fault
    then (record_event r operation r.intent_id (pos 0) fault s, close_connection r)
    else respond r operation r.intent_id status payload fault s

-- handlePutReference, after its fault and with a body that decodes.
unfoldable pub put : Request → PutRequest → Bool → Option FaultSnapshot → Server → Server × Reply
unfolding put_refusal put_reference subscriber conclude
put r body create fault s =
    let current = lookup r.intent_id s.references in
    let stored = put_reference r body (increment (version_of current)) s in
    let s' : Server = record s { references = insert r.intent_id stored s.references } in
    elim (put_refusal create r.ovn current) [
      | some (status, payload) ↦ respond r (put_operation create) r.intent_id status payload fault s
      | none ↦
          conclude r (put_operation create) (put_status create) (changed stored (subscriber s))
            fault s'
    ]

unfoldable pub put_decoded :
    Request → Decoded PutRequest → Bool → Option FaultSnapshot → Server → Server × Reply
unfolding put
put_decoded r (undecodable err) create fault s =
    respond r (put_operation create) r.intent_id (pos 400) (message err) fault s
put_decoded r (decoded body) create fault s = put r body create fault s

-- handlePutReference.
unfoldable pub handle_put_reference : Request → Decoded PutRequest → Bool → Server → Server × Reply
unfolding unless_faulted put_decoded
handle_put_reference r body create =
    unless_faulted r (put_operation create) r.intent_id (put_decoded r body create)

-- handleCreateReference.
unfoldable pub handle_create_reference : Request → Decoded PutRequest → Server → Server × Reply
unfolding handle_put_reference
handle_create_reference r body = handle_put_reference r body true

-- handleUpdateReference.
unfoldable pub handle_update_reference : Request → Decoded PutRequest → Server → Server × Reply
unfolding handle_put_reference
handle_update_reference r body = handle_put_reference r body false

-- handleDeleteReference, after its fault.
unfoldable pub delete : Request → Option FaultSnapshot → Server → Server × Reply
unfolding bump conclude
delete r fault s = elim (lookup r.intent_id s.references) [
  | none ↦
      respond r Operation.delete_reference r.intent_id (pos 404)
        (message (text "reference not found")) fault s
  | some current ↦
      if text_eq r.ovn current.ovn
      then conclude r Operation.delete_reference (pos 200) (changed (bump r.intent_id current) none)
          fault (record s { references = erase r.intent_id s.references })
      else respond r Operation.delete_reference r.intent_id (pos 409) (stale_ovn current.ovn) fault
          s
]

unfoldable pub handle_delete_reference : Request → Server → Server × Reply
unfolding unless_faulted delete
handle_delete_reference r = unless_faulted r Operation.delete_reference r.intent_id (delete r)
