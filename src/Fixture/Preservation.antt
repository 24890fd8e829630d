-- ===== src/Fixture/Preservation.antt =====
-- The handlers of internal/fixture/server.go and the well-formedness of the server.
use aero_arc_testing_harness.Prelude.{
  subst, ℤ, pos, IsInt, ◌≡◌, refl, Bool, true, false, List, [], ◌∷◌, Option, none, some, inl, inr,
  Text, text_eq, arith, lookup, increment-IsInt, Option-cases, Bool-cases, eq_ℤ,
}
use aero_arc_testing_harness.Fixture.Types.{
  FaultSnapshot, Config, Server, PutRequest, Decoded, decoded, undecodable, Request, Body, Reply,
  new,
}
use aero_arc_testing_harness.Fixture.Wire.{respond, closes}
use aero_arc_testing_harness.Fixture.Faults.{
  handle_clear_faults, take_fault, pre_commit_fault, gives_up,
}
use aero_arc_testing_harness.Fixture.References.{
  unless_faulted, put_reference, put_refusal, put, put_decoded, conclude, delete, get_reference,
  query_references, version_of, handle_state,
}
use aero_arc_testing_harness.Fixture.Router.{
  Route, health, reset, clear_faults, list_events, state, rotate_ovn, arm_fault, handle, run,
  subscriptions, peer_details, peer_notify, handle_reset, handle_events,
}
use aero_arc_testing_harness.Fixture.Endpoints.{operation_of, intent_of, served, handle-served}
use aero_arc_testing_harness.Fixture.Invariant.{
  IsWellFormed, IsStored, record_event-IsWellFormed, set_faults-IsWellFormed, store-IsWellFormed,
  remove-IsWellFormed, take_fault-IsWellFormed, handle_rotate_ovn-IsWellFormed,
  handle_fault-IsWellFormed,
}

abbrev Keeps : (Option FaultSnapshot → Server → Server × Reply) → Type 0
Keeps handler =
    (fault : Option FaultSnapshot) (s : Server) → IsWellFormed s → IsWellFormed (handler fault s).0

ends : {a b : Server × Reply} → IsWellFormed a.0 → some a ≡ some b → IsWellFormed b.0
ends {a} {b} w e = let e' : a ≡ b = cc in subst (λ (o : Server × Reply). IsWellFormed o.0) e' w

module _ (r : Request) where
  respond-Keeps :
      (operation intent_id : Text) (status : ℤ) (payload : Body)
      → Keeps (respond r operation intent_id status payload)
  unfolding respond
  respond-Keeps operation intent_id status payload fault s w =
      record_event-IsWellFormed w r operation intent_id status fault

  pre_commit-IsWellFormed :
      (operation intent_id : Text) (fault : Option FaultSnapshot) (s : Server)
      {outcome : Server × Reply}
      → pre_commit_fault r operation intent_id fault s ≡ some outcome
      → IsWellFormed s
      → IsWellFormed outcome.0
  unfolding pre_commit_fault
  pre_commit-IsWellFormed operation intent_id none s e w = cc
  pre_commit-IsWellFormed operation intent_id (some f) s e w =
      let given_up = record_event-IsWellFormed w r operation intent_id (pos 499) (some f) in
      let failed = record_event-IsWellFormed w r operation intent_id f.status (some f) in
      elim (Bool-cases (gives_up r f)) [
        | inl g ↦ ends given_up (rw (g, pre_commit_fault) at e)
        | inr g ↦ elim (Bool-cases (eq_ℤ f.status (pos 0))) [
          | inl z ↦ cc (rw (g, z, pre_commit_fault) at e)
          | inr z ↦ ends failed (rw (g, z, pre_commit_fault) at e)
        ]
      ]

  unless_faulted-IsWellFormed :
      (operation intent_id : Text) (handler : Option FaultSnapshot → Server → Server × Reply)
      (s : Server)
      → Keeps handler
      → IsWellFormed s
      → IsWellFormed (unless_faulted r operation intent_id handler s).0
  unfolding unless_faulted
  unless_faulted-IsWellFormed operation intent_id handler s keep w =
      let (s', fault) = take_fault operation s in
      let w' = take_fault-IsWellFormed w operation in
      elim (Option-cases (pre_commit_fault r operation intent_id fault s')) [
        | inl e ↦ rw (e, unless_faulted) (keep fault s' w')
        | inr (outcome, e) ↦
            rw (e, unless_faulted) (pre_commit-IsWellFormed operation intent_id fault s' e w')
      ]

  get_reference-Keeps : Keeps (get_reference r)
  unfolding get_reference
  get_reference-Keeps fault s w = elim (Option-cases (lookup r.intent_id s.references)) [
    | inl e ↦ rw (e, get_reference) (respond-Keeps _ _ _ _ fault s w)
    | inr (v, e) ↦ rw (e, get_reference) (respond-Keeps _ _ _ _ fault s w)
  ]

  peer_details-Keeps : Keeps (peer_details r)
  unfolding peer_details
  peer_details-Keeps fault s w = elim (Option-cases (lookup r.intent_id s.references)) [
    | inl e ↦ rw (e, peer_details) (respond-Keeps _ _ _ _ fault s w)
    | inr (v, e) ↦ rw (e, peer_details) (respond-Keeps _ _ _ _ fault s w)
  ]

  conclude-Keeps :
      (operation : Text) (status : ℤ) (payload : Body) → Keeps (conclude r operation status payload)
  unfolding conclude
  conclude-Keeps operation status payload fault s w = elim (Bool-cases (closes fault)) [
    | inl e ↦ rw e (record_event-IsWellFormed w r operation r.intent_id (pos 0) fault)
    | inr e ↦ rw e (respond-Keeps operation r.intent_id status payload fault s w)
  ]

  put_reference-IsStored :
      (body : PutRequest) (version : ℤ) (s : Server)
      → IsInt version
      → IsStored (r.intent_id, put_reference r body version s)
  unfolding put_reference
  put_reference-IsStored body version s h = record { keyed = refl; stamped = refl; in_range = h }

  put-Keeps : (body : PutRequest) (create : Bool) → Keeps (put r body create)
  unfolding put
  put-Keeps body create fault s w =
      let current = lookup r.intent_id s.references in
      elim (Option-cases (put_refusal create r.ovn current)) [
        | inl e ↦
            rw (e, put)
              (conclude-Keeps _ _ _ fault _ (
                store-IsWellFormed w r.intent_id _
                  (put_reference-IsStored body _ s (increment-IsInt (version_of current)))))
        | inr (refusal, e) ↦ rw (e, put) (respond-Keeps _ _ _ _ fault s w)
      ]

  put_decoded-Keeps :
      (body : Decoded PutRequest) (create : Bool) → Keeps (put_decoded r body create)
  unfolding put_decoded
  put_decoded-Keeps (undecodable err) create fault s w = respond-Keeps _ _ _ _ fault s w
  put_decoded-Keeps (decoded body) create fault s w = put-Keeps body create fault s w

  delete-Keeps : Keeps (delete r)
  unfolding delete
  delete-Keeps fault s w = elim (Option-cases (lookup r.intent_id s.references)) [
    | inl e ↦ rw (e, delete) (respond-Keeps _ _ _ _ fault s w)
    | inr (v, e) ↦ elim (Bool-cases (text_eq r.ovn v.ovn)) [
      | inl fresh ↦
          rw (e, delete, fresh) (conclude-Keeps _ _ _ fault _ (remove-IsWellFormed w r.intent_id))
      | inr stale ↦ rw (e, delete, stale) (respond-Keeps _ _ _ _ fault s w)
    ]
  ]

served-Keeps : (route : Route) (r : Request) → Keeps (served route r)
unfolding served query_references subscriptions peer_notify
served-Keeps Route.query_references r fault s w = record_event-IsWellFormed w r _ _ _ fault
served-Keeps Route.query_subscriptions r fault s w = record_event-IsWellFormed w r _ _ _ fault
served-Keeps Route.get_reference r fault s w = get_reference-Keeps r fault s w
served-Keeps Route.delete_reference r fault s w = delete-Keeps r fault s w
served-Keeps Route.peer_details_of r fault s w = peer_details-Keeps r fault s w
served-Keeps Route.peer_notification r fault s w = record_event-IsWellFormed w r _ _ _ fault
served-Keeps (Route.create_reference body) r fault s w = put_decoded-Keeps r body true fault s w
served-Keeps (Route.update_reference body) r fault s w = put_decoded-Keeps r body false fault s w
served-Keeps _ r fault s w = w

-- The routes of the control plane.
control-IsWellFormed :
    (route : Route) (r : Request) (s : Server)
    → operation_of route ≡ none
    → IsWellFormed s
    → IsWellFormed (handle route r s).0
unfolding handle handle_clear_faults handle_reset handle_events handle_state
control-IsWellFormed reset r s e w = record {
  stored = tt;
  distinct = tt;
  armed = tt;
  numbered = tt;
  counted = omega arith;
}
control-IsWellFormed (arm_fault p) r s e w = handle_fault-IsWellFormed w p
control-IsWellFormed clear_faults r s e w = set_faults-IsWellFormed w [] tt
control-IsWellFormed rotate_ovn r s e w = handle_rotate_ovn-IsWellFormed w r
control-IsWellFormed health r s e w = w
control-IsWellFormed list_events r s e w = w
control-IsWellFormed state r s e w = w
control-IsWellFormed _ r s e w = cc

-- Whatever the request, its body, its faults and its environment, the server stays well formed.
pub handle-IsWellFormed :
    (route : Route) (r : Request) (s : Server) → IsWellFormed s → IsWellFormed (handle route r s).0
handle-IsWellFormed route r s w = elim (Option-cases (operation_of route)) [
  | inl e ↦ control-IsWellFormed route r s e w
  | inr (operation, e) ↦ rw (handle-served route r s e) (
      unless_faulted-IsWellFormed r operation (intent_of route r) (served route r) s
        (served-Keeps route r) w)
]

new-IsWellFormed : (config : Config) → IsWellFormed (new config)
unfolding new
new-IsWellFormed config = record {
  stored = tt;
  distinct = tt;
  armed = tt;
  numbered = tt;
  counted = omega arith;
}

run-IsWellFormed :
    (history : List (Route × Request)) (s : Server) → IsWellFormed s → IsWellFormed (run history s)
unfolding run
run-IsWellFormed [] s w = w
run-IsWellFormed ((route, r) ∷ rest) s w =
    run-IsWellFormed rest (handle route r s).0 (handle-IsWellFormed route r s w)

-- After any history of requests to a new server, each answered in one go and whatever faults are
-- armed: every reference is stored under its id, once, with the OVN of its version; every armed
-- fault plan passes the checks of handleFault; and the journal is numbered 1, 2, 3, … (modulo
-- 2^64) with the counter at its last number.
pub run-new-IsWellFormed :
    (config : Config) (history : List (Route × Request)) → IsWellFormed (run history (new config))
run-new-IsWellFormed config history = run-IsWellFormed history _ (new-IsWellFormed config)
