-- ===== src/Fixture/Transparency.antt =====
-- What an injected fault can and cannot change in internal/fixture/server.go.
use aero_arc_testing_harness.Prelude.{
  pos, ◌≡◌, refl, sym, ◌∙◌, ap, Bool, true, false, not, ◌||◌, [], Option, none, some, Text, arith,
  lookup, eq_ℤ, if◌then◌else◌, Dict,
}
use aero_arc_testing_harness.Fixture.Types.{
  FaultPlan, FaultSnapshot, Server, Request, decoded, undecodable, Reply,
}
use aero_arc_testing_harness.Fixture.Wire.{record_event, respond, written, malformed, closes}
use aero_arc_testing_harness.Fixture.Faults.{take_fault, pre_commit_fault, gives_up}
use aero_arc_testing_harness.Fixture.References.{
  unless_faulted, put, put_decoded, put_reference, subscriber, conclude, delete, get_reference,
  query_references,
}
use aero_arc_testing_harness.Fixture.Router.{
  Route, handle, subscriptions, peer_details, peer_notify,
}
use aero_arc_testing_harness.Fixture.Endpoints.{operation_of, intent_of, served, handle-served}
use aero_arc_testing_harness.Fixture.Frame.{
  take_fault-none, unless_faulted_cases, take_fault-frame, pre_commit-faults,
}

-- A fault that ends a request before anything is committed.
abbrev pub stops : Request → Option FaultSnapshot → Bool
stops r none = false
stops r (some f) = gives_up r f || not (eq_ℤ f.status (pos 0))

-- A fault that shows neither in the connection nor in the body.
abbrev pub silent : Option FaultSnapshot → Bool
silent fault = not (closes fault || malformed fault)

-- The server without its fault plans.
abbrev pub unarmed : Server → Server
unarmed s = record s { faults = [] }

pre_commit-stops :
    (r : Request) (operation intent_id : Text) (fault : Option FaultSnapshot) (s : Server)
    {outcome : Server × Reply}
    → pre_commit_fault r operation intent_id fault s ≡ some outcome
    → stops r fault ≡ true
unfolding pre_commit_fault
pre_commit-stops r operation intent_id none s e = cc
pre_commit-stops r operation intent_id (some f) s e = ground arith

pre_commit-goes_on :
    (r : Request) (operation intent_id : Text) (fault : Option FaultSnapshot) (s : Server)
    → pre_commit_fault r operation intent_id fault s ≡ none
    → stops r fault ≡ false
unfolding pre_commit_fault
pre_commit-goes_on r operation intent_id none s e = refl
pre_commit-goes_on r operation intent_id (some f) s e = ground arith

-- What is served does not depend on the armed plans, and its effect on the references does not
-- depend on the fault either.
served-references :
    (route : Route) (r : Request) (fault : Option FaultSnapshot) (s : Server)
    (plans : Dict FaultPlan)
    → (served route r fault (record s { faults = plans })).0.references
      ≡ (served route r none s).0.references
unfolding served query_references subscriptions peer_notify get_reference delete peer_details
    put_decoded put put_reference subscriber conclude respond record_event
served-references Route.query_references r fault s plans = refl
served-references (Route.create_reference (decoded body)) r fault s plans = ground arith
served-references (Route.create_reference (undecodable err)) r fault s plans = ground arith
served-references (Route.update_reference (decoded body)) r fault s plans = ground arith
served-references (Route.update_reference (undecodable err)) r fault s plans = ground arith
served-references _ r fault s plans = ground arith

served-reply :
    (route : Route) (r : Request) (fault : Option FaultSnapshot) (s : Server)
    (plans : Dict FaultPlan)
    → silent fault ≡ true
    → (served route r fault (record s { faults = plans })).1 ≡ (served route r none s).1
unfolding served query_references subscriptions peer_notify get_reference delete peer_details
    put_decoded put put_reference subscriber conclude respond written
served-reply Route.query_references r fault s plans h = ground arith
served-reply (Route.create_reference (decoded body)) r fault s plans h = ground arith
served-reply (Route.create_reference (undecodable err)) r fault s plans h = ground arith
served-reply (Route.update_reference (decoded body)) r fault s plans h = ground arith
served-reply (Route.update_reference (undecodable err)) r fault s plans h = ground arith
served-reply _ r fault s plans h = ground arith

-- Where no fault is armed for it, a request is served at once.
pub handle-unarmed :
    (route : Route) (r : Request) (s : Server) {operation : Text}
    → operation_of route ≡ some operation
    → lookup operation s.faults ≡ none
    → handle route r s ≡ served route r none s
unfolding pre_commit_fault unless_faulted
handle-unarmed route r s {operation} e free =
    handle-served route r s e ∙ ap goes_on (take_fault-none operation s free)
  where
    goes_on : Server × Option FaultSnapshot → Server × Reply
    goes_on x = elim (pre_commit_fault r operation (intent_of route r) x.1 x.0) [
      | some outcome ↦ outcome
      | none ↦ served route r x.1 x.0
    ]

module _ (route : Route) (r : Request) (s : Server) {operation : Text}
    (e : operation_of route ≡ some operation) where
  handle_unarmed_lem : handle route r (unarmed s) ≡ served route r none (unarmed s)
  handle_unarmed_lem = handle-unarmed route r (unarmed s) e (unfold lookup in refl)

  -- A fault of an endpoint either ends the request with the references as they were, which it
  -- does by a delay that the client does not wait out or by a status of its own, or it leaves the
  -- request the effect on the references that it has with no fault armed: one that closes the
  -- connection or garbles the answer does so after the commit.
  pub handle-references : (handle route r s).0.references ≡ (
      if stops r (take_fault operation s).1
      then s.references
      else (handle route r (unarmed s)).0.references)
  handle-references =
      let (s', fault) = take_fault operation s in
      let same : s' ≡ record s { faults = s'.faults } = take_fault-frame operation s in
      rw (handle-served route r s e) (
        unless_faulted_cases
          (λ out.
            out.0.references
            ≡ (if stops r fault then s.references else (handle route r (unarmed s)).0.references))
          r operation (intent_of route r) (served route r) s
          (λ outcome ended. rw (pre_commit-stops r operation (intent_of route r) fault s' ended) (
            (pre_commit-faults r operation (intent_of route r) fault s' ended).1
            ∙ ap (λ (t : Server). t.references) same))
          (λ going.
            rw
              (
                pre_commit-goes_on r operation (intent_of route r) fault s' going,
                handle_unarmed_lem,
              )
              (ap (λ (t : Server). (served route r fault t).0.references) same
                ∙ served-references route r fault s s'.faults
                ∙ sym (served-references route r none s []))))

  -- A fault that neither ends the request, nor closes the connection, nor garbles the answer, such
  -- as a delay that the client waits out, does not show: the answer is the one without a fault.
  pub handle-reply :
      stops r (take_fault operation s).1 ≡ false
      → silent (take_fault operation s).1 ≡ true
      → (handle route r s).1 ≡ (handle route r (unarmed s)).1
  handle-reply going quiet =
      let (s', fault) = take_fault operation s in
      let same : s' ≡ record s { faults = s'.faults } = take_fault-frame operation s in
      rw (handle-served route r s e) (
        unless_faulted_cases (λ out. out.1 ≡ (handle route r (unarmed s)).1) r operation
          (intent_of route r) (served route r) s
          (λ outcome ended.
            cc (pre_commit-stops r operation (intent_of route r) fault s' ended, going))
          (λ _. rw handle_unarmed_lem (
            ap (λ (t : Server). (served route r fault t).1) same
            ∙ served-reply route r fault s s'.faults quiet
            ∙ sym (served-reply route r none s [] refl))))
