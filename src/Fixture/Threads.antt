-- ===== src/Fixture/Threads.antt =====
-- The handlers of internal/fixture/server.go as the threads that net/http runs: the sections of a
-- handler that the mutex, or the atomic counter, makes indivisible, and what is between them.
use aero_arc_testing_harness.Prelude.{
  ℕ, ℤ, pos, Bool, true, false, [], ◌∷◌, ◌++◌, Option, none, some, Text, text, text_eq, eq_ℤ,
  if◌then◌else◌, lookup, insert, erase, values, increment,
}
use aero_arc_testing_harness.Fixture.Types.{
  FaultSnapshot, Event, Server, Request, PutRequest, Decoded, decoded, undecodable, Body, nothing,
  message, stale_ovn, references, found, changed, no_subscriptions, details, Reply, unwritten,
  status_ok,
}
use aero_arc_testing_harness.Fixture.Wire.{
  write, write_json, next_sequence, written, closes, close_connection,
}
use aero_arc_testing_harness.Fixture.Faults.{
  handle_fault, handle_clear_faults, take_fault, gives_up, injected_failure,
}
use aero_arc_testing_harness.Fixture.References.{
  handle_rotate_ovn, handle_state, put_status, put_refusal, version_of, put_reference, subscriber,
  bump,
}
use aero_arc_testing_harness.Fixture.Router.{Route, handle_events}
use aero_arc_testing_harness.Fixture.Endpoints.{operation_of, intent_of}

-- A thread: it has answered, or it goes on with a section, and then as what it saw there says.
pub data Thread : Type 0 where
  ended : Reply → Thread
  section : (Server → Server) → (Server → Thread) → Thread

-- A handler with one section.
abbrev pub at_once : (Server → Server × Reply) → Thread
at_once h = section (λ s. (h s).0) (λ s. ended (h s).1)

-- The second section of record.
unfoldable pub append_event :
    Request → Text → Text → ℤ → Option FaultSnapshot → (sequence : ℕ) → Server → Server
append_event r operation intent_id status fault sequence s =
    let event : Event = record {
      sequence = sequence;
      at = r.recorded_at;
      operation = operation;
      method = r.method;
      path = r.request_uri;
      intent_id = intent_id;
      status = status;
      fault = fault;
    } in
    record s { events = s.events ++ event ∷ [] }

-- record, which takes its number before it takes the mutex, and the answer after it.
unfoldable pub recording : Request → Text → Text → ℤ → Option FaultSnapshot → Reply → Thread
recording r operation intent_id status fault reply =
    section (λ s. record s { sequence = next_sequence s.sequence })
      (λ s.
        section (append_event r operation intent_id status fault (next_sequence s.sequence))
          (λ _. ended reply))

-- handleReset, which sets the counter after it has left the mutex.
unfoldable pub resetting : Thread
resetting =
    section (λ s. record s { references = []; faults = []; events = [] })
      (λ _. section (λ s. record s { sequence = 0 }) (λ _. ended (write_json (pos 204) nothing)))

-- The status that is recorded, and the answer.
pub record Finish : Type 0 where
  pub status : ℤ
  pub reply : Reply

abbrev answered : ℤ → Body → Option FaultSnapshot → Finish
answered status payload fault = record { status = status; reply = written status payload fault }

-- The end of a change that is committed.
abbrev concluded : Request → ℤ → Body → Option FaultSnapshot → Finish
concluded r status payload fault =
    if closes fault
    then record { status = pos 0; reply = close_connection r }
    else answered status payload fault

-- The section of handlePutReference.
unfoldable pub put_locked :
    Request → PutRequest → Bool → Option FaultSnapshot → Server → Server × Finish
put_locked r body create fault s =
    let current = lookup r.intent_id s.references in
    let stored = put_reference r body (increment (version_of current)) s in
    elim (put_refusal create r.ovn current) [
      | some (status, payload) ↦ (s, answered status payload fault)
      | none ↦ (
        record s { references = insert r.intent_id stored s.references },
        concluded r (put_status create) (changed stored (subscriber s)) fault,
      )
    ]

unfoldable pub decoded_locked :
    Request → Decoded PutRequest → Bool → Option FaultSnapshot → Server → Server × Finish
decoded_locked r (undecodable err) create fault s = (s, answered (pos 400) (message err) fault)
decoded_locked r (decoded body) create fault s = put_locked r body create fault s

-- The section of handleDeleteReference.
unfoldable pub delete_locked : Request → Option FaultSnapshot → Server → Server × Finish
delete_locked r fault s = elim (lookup r.intent_id s.references) [
  | none ↦ (s, answered (pos 404) (message (text "reference not found")) fault)
  | some current ↦
      if text_eq r.ovn current.ovn
      then (
        record s { references = erase r.intent_id s.references },
        concluded r (pos 200) (changed (bump r.intent_id current) none) fault,
      )
      else (s, answered (pos 409) (stale_ovn current.ovn) fault)
]

-- What an endpoint does with the mutex once its fault has not ended it, and how it finishes.
unfoldable pub locked : Route → Request → Option FaultSnapshot → Server → Server × Finish
locked Route.query_references r fault s =
    (s, answered (pos 200) (references (r.range (values s.references))) fault)
locked Route.query_subscriptions r fault s = (s, answered (pos 200) no_subscriptions fault)
locked Route.get_reference r fault s = elim (lookup r.intent_id s.references) [
  | none ↦ (s, answered (pos 404) (message (text "reference not found")) fault)
  | some current ↦ (s, answered (pos 200) (found current) fault)
]
locked Route.delete_reference r fault s = delete_locked r fault s
locked Route.peer_details_of r fault s = elim (lookup r.intent_id s.references) [
  | none ↦ (s, answered (pos 404) (message (text "intent not found")) fault)
  | some current ↦ (s, answered (pos 200) (details current) fault)
]
locked Route.peer_notification r fault s =
    (s, record { status = pos 204; reply = write (pos 204) nothing })
locked (Route.create_reference body) r fault s = decoded_locked r body true fault s
locked (Route.update_reference body) r fault s = decoded_locked r body false fault s
locked _ r fault s = (s, record { status = pos 0; reply = unwritten })

-- The thread of an endpoint after its section.
unfoldable pub finishing : Request → Text → Text → Option FaultSnapshot → Finish → Thread
finishing r operation intent_id fault f = recording r operation intent_id f.status fault f.reply

abbrev serving : Route → Request → Text → Option FaultSnapshot → Thread
serving route r operation fault =
    section (λ s. (locked route r fault s).0)
      (λ s. finishing r operation (intent_of route r) fault (locked route r fault s).1)

-- The thread of an endpoint once its fault is taken: preCommitFault, and what follows.
unfoldable pub after_fault : Route → Request → Text → Option FaultSnapshot → Thread
after_fault route r operation none = serving route r operation none
after_fault route r operation (some f) =
    if gives_up r f
    then recording r operation (intent_of route r) (pos 499) (some f) unwritten
    else if eq_ℤ f.status (pos 0)
    then serving route r operation (some f)
    else recording r operation (intent_of route r) f.status (some f)
        (written f.status (message injected_failure) (some f))

-- The thread of an endpoint: takeFault is its first section.
unfoldable pub endpoint_thread : Route → Request → Text → Thread
endpoint_thread route r operation =
    section (λ s. (take_fault operation s).0)
      (λ s. after_fault route r operation (take_fault operation s).1)

unfoldable pub control_thread : Route → Request → Thread
control_thread Route.reset r = resetting
control_thread (Route.arm_fault p) r = at_once (handle_fault p)
control_thread Route.clear_faults r = at_once handle_clear_faults
control_thread Route.list_events r = at_once handle_events
control_thread Route.state r = at_once (handle_state r)
control_thread Route.rotate_ovn r = at_once (handle_rotate_ovn r)
control_thread _ r = at_once (λ s. (s, write_json (pos 200) status_ok))

-- The thread of a request.
unfoldable pub thread : Route → Request → Thread
thread route r = elim (operation_of route) [
  | none ↦ control_thread route r
  | some operation ↦ endpoint_thread route r operation
]
