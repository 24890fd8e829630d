-- ===== src/Fixture/Journal.antt =====
-- What internal/fixture/server.go writes to its journal of requests.
use aero_arc_testing_harness.Prelude.{
  ℕ, ℤ, pos, ◌≡◌, refl, subst, ap, Bool, true, false, List, [], ◌∷◌, ◌++◌, Option, none, some, ◌⊎◌,
  inl, inr, Text, text_eq, arith, lookup, eq_ℤ, Option-cases, Bool-cases,
}
use aero_arc_testing_harness.Fixture.Operation
use aero_arc_testing_harness.Fixture.Types.{
  FaultSnapshot, Event, Server, Request, PutRequest, Decoded, decoded, undecodable, Body, nothing,
  incomplete, Reply, unwritten,
}
use aero_arc_testing_harness.Fixture.Wire.{
  record_event, respond, written, write, write_json, close_connection, closes, malformed,
  next_sequence,
}
use aero_arc_testing_harness.Fixture.Faults.{
  take_fault, pre_commit_fault, gives_up, handle_fault, handle_clear_faults,
}
use aero_arc_testing_harness.Fixture.References.{
  put, put_decoded, put_refusal, conclude, delete, get_reference, query_references, put_operation,
  handle_rotate_ovn, handle_state,
}
use aero_arc_testing_harness.Fixture.Router.{
  Route, handle, subscriptions, peer_details, peer_notify, handle_reset, handle_events,
}
use aero_arc_testing_harness.Fixture.Endpoints.{operation_of, intent_of, served, handle-served}
use aero_arc_testing_harness.Fixture.Frame.{unless_faulted_cases, take_fault-frame}

-- How the status of a journal entry tells what was answered: 499 for a client that left, 0 for a
-- connection closed after the commit, and otherwise the status that the handler wrote.
abbrev pub Answered : Request → ℤ → Reply → Type 0
Answered r status reply =
    ((status ≡ pos 499) × (reply ≡ unwritten))
    ⊎ ((status ≡ pos 0) × (reply ≡ close_connection r))
    ⊎ ((body : Body) × (reply ≡ write status body))

-- One entry is appended, under the next number, which describes the request, the fault that it
-- took and the answer.
pub record IsRecorded (r : Request) (operation intent_id : Text) (fault : Option FaultSnapshot)
    (before : List Event) (count : ℕ) (out : Server × Reply) : Type 0 where
  pub event : Event
  pub counted : out.0.sequence ≡ next_sequence count
  pub number_is : event.sequence ≡ next_sequence count
  pub appended : out.0.events ≡ before ++ event ∷ []
  pub operation_is : event.operation ≡ operation
  pub intent_is : event.intent_id ≡ intent_id
  pub method_is : event.method ≡ r.method
  pub path_is : event.path ≡ r.request_uri
  pub time_is : event.at ≡ r.recorded_at
  pub fault_is : event.fault ≡ fault
  pub answered : Answered r event.status out.1

module _ (r : Request) (operation intent_id : Text) (fault : Option FaultSnapshot)
    (s : Server) where
  record_event-IsRecorded :
      (status : ℤ) (reply : Reply)
      → Answered r status reply
      → IsRecorded r operation intent_id fault s.events s.sequence
          (record_event r operation intent_id status fault s, reply)
  unfolding record_event
  record_event-IsRecorded status reply answer = record {
    event = _;
    counted = refl;
    number_is = refl;
    appended = refl;
    operation_is = refl;
    intent_is = refl;
    method_is = refl;
    path_is = refl;
    time_is = refl;
    fault_is = refl;
    answered = answer;
  }

  written-Answered :
      (status : ℤ) (payload : Body) → Answered r status (written status payload fault)
  unfolding written write_json
  written-Answered status payload = elim (Bool-cases (malformed fault)) [
    | inl e ↦ rw e (inr (inr (incomplete, refl)))
    | inr e ↦ elim (Bool-cases (eq_ℤ status (pos 204))) [
      | inl z ↦ rw (e, z) (inr (inr (nothing, refl)))
      | inr z ↦ rw (e, z) (inr (inr (payload, refl)))
    ]
  ]

  respond-IsRecorded :
      (status : ℤ) (payload : Body)
      → IsRecorded r operation intent_id fault s.events s.sequence
          (respond r operation intent_id status payload fault s)
  unfolding respond
  respond-IsRecorded status payload =
      record_event-IsRecorded status _ (written-Answered status payload)

abbrev IfSome : (Server × Reply → Type 0) → Option (Server × Reply) → Type 0
IfSome P none = Unit
IfSome P (some out) = P out

module _ (r : Request) (fault : Option FaultSnapshot) (s : Server) where
  pre_commit-IsRecorded :
      (operation intent_id : Text) {outcome : Server × Reply}
      → pre_commit_fault r operation intent_id fault s ≡ some outcome
      → IsRecorded r operation intent_id fault s.events s.sequence outcome
  unfolding pre_commit_fault
  pre_commit-IsRecorded operation intent_id e =
      subst (IfSome (IsRecorded r operation intent_id fault s.events s.sequence)) e (go fault)
    where
      go :
          (f : Option FaultSnapshot)
          → IfSome
              (IsRecorded r operation intent_id f s.events s.sequence)
              (pre_commit_fault r operation intent_id f s)
      go none = unfold pre_commit_fault in tt
      go (some f) = elim (Bool-cases (gives_up r f)) [
        | inl g ↦
            rw (g, pre_commit_fault)
              (record_event-IsRecorded r operation intent_id (some f) s (pos 499) unwritten
                (inl (refl, refl)))
        | inr g ↦ elim (Bool-cases (eq_ℤ f.status (pos 0))) [
          | inl z ↦ rw (g, z, pre_commit_fault) tt
          | inr z ↦
              rw (g, z, pre_commit_fault)
                (respond-IsRecorded r operation intent_id (some f) s f.status _)
        ]
      ]

  conclude-IsRecorded :
      (operation : Text) (status : ℤ) (payload : Body)
      → IsRecorded r operation r.intent_id fault s.events s.sequence
          (conclude r operation status payload fault s)
  unfolding conclude
  conclude-IsRecorded operation status payload = elim (Bool-cases (closes fault)) [
    | inl e ↦
        rw e (
          record_event-IsRecorded r operation r.intent_id fault s (pos 0) _
            (inr (inl (refl, refl))))
    | inr e ↦ rw e (respond-IsRecorded r operation r.intent_id fault s status payload)
  ]

module _ (r : Request) (fault : Option FaultSnapshot) (s : Server) where
  put_decoded-IsRecorded :
      (body : Decoded PutRequest) (create : Bool)
      → IsRecorded r
          (put_operation create)
          r.intent_id
          fault
          s.events
          s.sequence
          (put_decoded r body create fault s)
  unfolding put_decoded put
  put_decoded-IsRecorded (undecodable err) create = respond-IsRecorded r _ _ fault s _ _
  put_decoded-IsRecorded (decoded body) create =
      elim (Option-cases (put_refusal create r.ovn (lookup r.intent_id s.references))) [
        | inl e ↦ rw (e, put) (conclude-IsRecorded r fault _ _ _ _)
        | inr ((status, payload), e) ↦ rw (e, put) (respond-IsRecorded r _ _ fault s status payload)
      ]

  delete-IsRecorded :
      IsRecorded r Operation.delete_reference r.intent_id fault s.events s.sequence
        (delete r fault s)
  unfolding delete
  delete-IsRecorded = elim (Option-cases (lookup r.intent_id s.references)) [
    | inl e ↦ rw (e, delete) (respond-IsRecorded r _ _ fault s _ _)
    | inr (v, e) ↦ elim (Bool-cases (text_eq r.ovn v.ovn)) [
      | inl fresh ↦ rw (e, delete, fresh) (conclude-IsRecorded r fault _ _ _ _)
      | inr stale ↦ rw (e, delete, stale) (respond-IsRecorded r _ _ fault s _ _)
    ]
  ]

  get_reference-IsRecorded :
      IsRecorded r Operation.get_reference r.intent_id fault s.events s.sequence
        (get_reference r fault s)
  unfolding get_reference
  get_reference-IsRecorded = elim (Option-cases (lookup r.intent_id s.references)) [
    | inl e ↦ rw (e, get_reference) (respond-IsRecorded r _ _ fault s _ _)
    | inr (v, e) ↦ rw (e, get_reference) (respond-IsRecorded r _ _ fault s _ _)
  ]

  peer_details-IsRecorded :
      IsRecorded r Operation.peer_details r.intent_id fault s.events s.sequence
        (peer_details r fault s)
  unfolding peer_details
  peer_details-IsRecorded = elim (Option-cases (lookup r.intent_id s.references)) [
    | inl e ↦ rw (e, peer_details) (respond-IsRecorded r _ _ fault s _ _)
    | inr (v, e) ↦ rw (e, peer_details) (respond-IsRecorded r _ _ fault s _ _)
  ]

abbrev RecordedAs : Route → Request → Option FaultSnapshot → Server → Option Text → Type 0
RecordedAs route r fault s none = Unit
RecordedAs route r fault s (some operation) =
    IsRecorded r operation (intent_of route r) fault s.events s.sequence (served route r fault s)

served-RecordedAs :
    (route : Route) (r : Request) (fault : Option FaultSnapshot) (s : Server)
    → RecordedAs route r fault s (operation_of route)
unfolding served query_references subscriptions peer_notify
served-RecordedAs Route.query_references r fault s = respond-IsRecorded r _ _ fault s _ _
served-RecordedAs Route.query_subscriptions r fault s = respond-IsRecorded r _ _ fault s _ _
served-RecordedAs Route.get_reference r fault s = get_reference-IsRecorded r fault s
served-RecordedAs Route.delete_reference r fault s = delete-IsRecorded r fault s
served-RecordedAs Route.peer_details_of r fault s = peer_details-IsRecorded r fault s
served-RecordedAs Route.peer_notification r fault s =
    record_event-IsRecorded r _ _ fault s _ _ (inr (inr (nothing, refl)))
served-RecordedAs (Route.create_reference body) r fault s =
    put_decoded-IsRecorded r fault s body true
served-RecordedAs (Route.update_reference body) r fault s =
    put_decoded-IsRecorded r fault s body false
served-RecordedAs _ r fault s = tt

-- Every request to an endpoint of the DSS or of the peer appends one entry to the journal,
-- whichever fault it takes, and counts it: the entry has the number that follows the count before,
-- the endpoint's operation, the request's intent, method, path and time, the fault that was taken
-- for the request, and the status that tells the answer.
pub handle-IsRecorded :
    (route : Route) (r : Request) (s : Server) {operation : Text}
    → operation_of route ≡ some operation
    → IsRecorded r operation
        (intent_of route r)
        (take_fault operation s).1
        s.events
        s.sequence
        (handle route r s)
handle-IsRecorded route r s {operation} e =
    let (s', fault) = take_fault operation s in
    let same : s'.events ≡ s.events =
      ap (λ (t : Server). t.events) (take_fault-frame operation s) in
    let as_many : s'.sequence ≡ s.sequence =
      ap (λ (t : Server). t.sequence) (take_fault-frame operation s) in
    let intent_id = intent_of route r in
    rw (handle-served route r s e) (
      unless_faulted_cases (IsRecorded r operation intent_id fault s.events s.sequence) r operation
        intent_id (served route r) s
        (λ outcome ended.
          rw (same, as_many) at (pre_commit-IsRecorded r fault s' operation intent_id ended))
        (λ _.
          rw (same, as_many) at
            (subst (RecordedAs route r fault s') e (served-RecordedAs route r fault s'))))

-- The control plane is not journaled: only a reset touches the journal, and empties it.
pub control-journal :
    (route : Route) (r : Request) (s : Server)
    → operation_of route ≡ none
    → ((handle route r s).0.events ≡ s.events)
      ⊎ ((route ≡ Route.reset) × ((handle route r s).0.events ≡ []))
unfolding handle handle_reset handle_fault handle_clear_faults handle_events handle_state
    handle_rotate_ovn
control-journal Route.reset r s e = inr (refl, refl)
control-journal Route.rotate_ovn r s e = inl (ground arith)
control-journal (Route.arm_fault p) r s e = inl (ground arith)
control-journal Route.health r s e = inl refl
control-journal Route.clear_faults r s e = inl refl
control-journal Route.list_events r s e = inl refl
control-journal Route.state r s e = inl refl
control-journal _ r s e = cc
