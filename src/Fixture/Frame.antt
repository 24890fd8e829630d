-- ===== src/Fixture/Frame.antt =====
-- Which part of its state each step of a handler of internal/fixture/server.go leaves alone.
use aero_arc_testing_harness.Prelude.{
  ℤ, Bool, ◌≡◌, refl, true, false, Option, none, some, inl, inr, Text, arith, lookup, Option-cases,
}
use aero_arc_testing_harness.Fixture.Types.{
  Body, FaultPlan, FaultSnapshot, Server, Request, Reply, Decoded, decoded, undecodable,
}
use aero_arc_testing_harness.Fixture.Wire.{record_event, respond}
use aero_arc_testing_harness.Fixture.Faults.{handle_fault, take_fault, spend, pre_commit_fault}
use aero_arc_testing_harness.Fixture.References.{
  unless_faulted, put, put_decoded, conclude, delete, get_reference, query_references,
}
use aero_arc_testing_harness.Fixture.Router.{
  Route, handle, subscriptions, peer_details, peer_notify,
}
use aero_arc_testing_harness.Fixture.Endpoints.{operation_of, intent_of, served, handle-served}

pub take_fault-none :
    (operation : Text) (s : Server)
    → lookup operation s.faults ≡ none
    → take_fault operation s ≡ (s, none)
unfolding take_fault
take_fault-none operation s e = rw (e, take_fault)

-- The two ways in which an endpoint goes on from its fault.
pub unless_faulted_cases {ℓ} :
    (P : Server × Reply → Type ℓ) (r : Request) (operation intent_id : Text)
    (handler : Option FaultSnapshot → Server → Server × Reply) (s : Server)
    → let (s', fault) = take_fault operation s in
      ((outcome : Server × Reply)
        → pre_commit_fault r operation intent_id fault s' ≡ some outcome
        → P outcome)
      → (pre_commit_fault r operation intent_id fault s' ≡ none → P (handler fault s'))
      → P (unless_faulted r operation intent_id handler s)
unfolding unless_faulted
unless_faulted_cases P r operation intent_id handler s ended served =
    let (s', fault) = take_fault operation s in
    elim (Option-cases (pre_commit_fault r operation intent_id fault s')) [
      | inl e ↦ rw (e, unless_faulted) (served e)
      | inr (outcome, e) ↦ rw (e, unless_faulted) (ended outcome e)
    ]

-- Serving a request touches no fault plan.
pub served-faults :
    (route : Route) (r : Request) (fault : Option FaultSnapshot) (s : Server)
    → (served route r fault s).0.faults ≡ s.faults
unfolding served query_references subscriptions peer_notify get_reference delete peer_details
    put_decoded put conclude respond record_event
served-faults Route.query_references r fault s = refl
served-faults (Route.create_reference (decoded body)) r fault s = ground arith
served-faults (Route.create_reference (undecodable err)) r fault s = ground arith
served-faults (Route.update_reference (decoded body)) r fault s = ground arith
served-faults (Route.update_reference (undecodable err)) r fault s = ground arith
served-faults _ r fault s = ground arith

pub pre_commit-faults :
    (r : Request) (operation intent_id : Text) (fault : Option FaultSnapshot) (s : Server)
    {outcome : Server × Reply}
    → pre_commit_fault r operation intent_id fault s ≡ some outcome
    → (outcome.0.faults ≡ s.faults) × (outcome.0.references ≡ s.references)
unfolding pre_commit_fault respond record_event
pre_commit-faults r operation intent_id none s e = cc
pre_commit-faults r operation intent_id (some f) s e = ground arith

-- Taking a fault touches nothing but the fault plans.
pub take_fault-frame :
    (operation : Text) (s : Server)
    → (take_fault operation s).0 ≡ record s { faults = (take_fault operation s).0.faults }
unfolding take_fault spend
take_fault-frame operation s = ground arith

-- A request to an endpoint changes the fault plans as taking its fault does.
pub handle-faults :
    (route : Route) (r : Request) (s : Server) {operation : Text}
    → operation_of route ≡ some operation
    → (handle route r s).0.faults ≡ (take_fault operation s).0.faults
handle-faults route r s {operation} e = rw (handle-served route r s e) (
    unless_faulted_cases (λ out. out.0.faults ≡ (take_fault operation s).0.faults) r operation
      (intent_of route r) (served route r) s
      (λ outcome ended. (pre_commit-faults r operation (intent_of route r) _ _ ended).0)
      (λ _. served-faults route r _ _))

-- The routes that write references.
abbrev pub writes : Route → Bool
writes (Route.create_reference body) = true
writes (Route.update_reference body) = true
writes Route.delete_reference = true
writes _ = false

-- Serving any other request leaves the references alone.
pub served-reads :
    (route : Route) (r : Request) (fault : Option FaultSnapshot) (s : Server)
    → writes route ≡ false
    → (served route r fault s).0.references ≡ s.references
unfolding served query_references subscriptions peer_notify get_reference peer_details respond
    record_event
served-reads (Route.create_reference body) r fault s h = cc
served-reads (Route.update_reference body) r fault s h = cc
served-reads Route.delete_reference r fault s h = cc
served-reads _ r fault s h = ground arith

-- An answer leaves the references alone.
pub respond-references :
    (r : Request) (operation intent_id : Text) (status : ℤ) (payload : Body)
    (fault : Option FaultSnapshot) (s : Server)
    → (respond r operation intent_id status payload fault s).0.references ≡ s.references
unfolding respond record_event
respond-references r operation intent_id status payload fault s = refl

-- Arming a fault leaves the references alone.
pub handle_fault-references :
    (p : Decoded FaultPlan) (s : Server) → (handle_fault p s).0.references ≡ s.references
unfolding handle_fault
handle_fault-references (undecodable err) s = refl
handle_fault-references (decoded p) s = ground arith
