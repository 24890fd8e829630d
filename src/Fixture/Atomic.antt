-- ===== src/Fixture/Atomic.antt =====
-- Every interleaving of the handlers of internal/fixture/server.go, as far as the references go, is
-- one in which each request takes its effect in one go.
use aero_arc_testing_harness.Prelude.{
  ℤ, pos, eq_ℤ, leb_ℤ, ◌-ℤ◌, All, All-insert, All-erase, lookup-All, Option-cases, ◌≡◌, refl, sym,
  subst, ◌∙◌, ap, ◌⊎◌, inl, inr, true, [], Option, none, some, Text, arith, Bool-cases, lookup,
  Dict,
}
use aero_arc_testing_harness.Fixture.Types.{
  FaultPlan, FaultSnapshot, Server, Reference, Request, Reply, decoded, undecodable,
}
use aero_arc_testing_harness.Fixture.Wire.{record_event, respond}
use aero_arc_testing_harness.Fixture.Faults.{snapshot, spend, take_fault, gives_up}
use aero_arc_testing_harness.Fixture.References.{
  put, put_decoded, put_reference, conclude, delete, get_reference, query_references,
}
use aero_arc_testing_harness.Fixture.Router.{
  Route, handle, subscriptions, peer_details, peer_notify,
}
use aero_arc_testing_harness.Fixture.Endpoints.{operation_of, intent_of, served}
use aero_arc_testing_harness.Fixture.Frame.{take_fault-frame}
use aero_arc_testing_harness.Fixture.Transparency.{stops, handle-unarmed}
use aero_arc_testing_harness.Fixture.Threads.{
  Thread, ended, section, append_event, recording, put_locked, decoded_locked, delete_locked,
  locked, finishing, after_fault, endpoint_thread, thread,
}

-- The server at the start, and what faults may be armed for an operation.
pub record Ground : Type 1 where
  pub server : Server
  pub Source : Text → FaultSnapshot → Type 0

-- Every armed plan is one of those.
abbrev pub AreSourced : Ground → Dict FaultPlan → Type 0
AreSourced g = All (λ (entry : Text × FaultPlan). g.Source entry.0 (snapshot entry.1))

-- A server that differs from the first one at most in its references, its fault plans and its
-- journal.
pub record IsFramed (g : Ground) (s : Server) : Type 0 where
  pub manager : s.manager ≡ g.server.manager
  pub peer : s.peer_base_url ≡ g.server.peer_base_url
  pub plans : AreSourced g s.faults

-- A fault that may be armed for the request's operation stops it before it commits anything.
abbrev pub IsStopped : Ground → Route → Request → Type 0
IsStopped g route r =
    (operation : Text) × (fault : FaultSnapshot) × (operation_of route ≡ some operation)
    × g.Source operation fault
    × (stops r (some fault) ≡ true)

-- The effect of a request that is handled in one go, with no fault armed, on the references.
abbrev pub effect : Server → Route → Request → Dict Reference → Dict Reference
effect b route r refs = (handle route r (record b { references = refs; faults = [] })).0.references

module _ (g : Ground) where
  -- A thread whose sections leave the references alone.
  abbrev pub IsIdle : Thread → Type 0
  IsIdle (ended reply) = Unit
  IsIdle (section f k) =
      (s : Server)
      → IsFramed g s
      → IsFramed g (f s) × ((f s).references ≡ s.references) × IsIdle (k s)

  -- A thread that has a section ahead of it which does what the request does in one go, or ends
  -- without it by a fault that stops it; its other sections leave the references alone.
  abbrev pub IsPending : Route → Request → Thread → Type 0
  IsPending route r (ended reply) = ⊥
  IsPending route r (section f k) =
      (s : Server)
      → IsFramed g s
      → IsFramed g (f s)
        × ((((f s).references ≡ s.references)
              × (IsPending route r (k s) ⊎ (IsIdle (k s) × IsStopped g route r)))
            ⊎ (((f s).references ≡ effect g.server route r s.references) × IsIdle (k s)))

  recording-IsIdle :
      (r : Request) (operation intent_id : Text) (status : ℤ) (fault : Option FaultSnapshot)
      (reply : Reply)
      → IsIdle (recording r operation intent_id status fault reply)
  unfolding recording append_event
  recording-IsIdle r operation intent_id status fault reply s h = (
    record { manager = h.manager; peer = h.peer; plans = h.plans },
    refl,
    λ s' h'. (record { manager = h'.manager; peer = h'.peer; plans = h'.plans }, refl, tt),
  )

  served-effect :
      (route : Route) (r : Request) (fault : Option FaultSnapshot) (s : Server)
      → s.manager ≡ g.server.manager
      → s.peer_base_url ≡ g.server.peer_base_url
      → (locked route r fault s).0.references
        ≡ (served route r none
            (record g.server { references = s.references; faults = [] })).0.references
  unfolding served locked query_references subscriptions peer_notify get_reference delete
      peer_details put_decoded put put_reference conclude respond record_event put_locked
      decoded_locked delete_locked
  served-effect Route.query_references r fault s m p = refl
  served-effect (Route.create_reference (decoded body)) r fault s m p = ground (arith, m, p)
  served-effect (Route.create_reference (undecodable err)) r fault s m p = refl
  served-effect (Route.update_reference (decoded body)) r fault s m p = ground (arith, m, p)
  served-effect (Route.update_reference (undecodable err)) r fault s m p = refl
  served-effect _ r fault s m p = ground arith

  locked-effect :
      (route : Route) (r : Request) {operation : Text} (fault : Option FaultSnapshot) (s : Server)
      → operation_of route ≡ some operation
      → IsFramed g s
      → (locked route r fault s).0.references ≡ effect g.server route r s.references
  locked-effect route r fault s e h =
      served-effect route r fault s h.manager h.peer
      ∙ sym (
          ap (λ (x : Server × Reply). x.0.references)
            (handle-unarmed route r (record g.server { references = s.references; faults = [] }) e
              (unfold lookup in refl)))

  locked-frame :
      (route : Route) (r : Request) (fault : Option FaultSnapshot) (s : Server)
      → (locked route r fault s).0 ≡ record s { references = (locked route r fault s).0.references }
  unfolding locked put_locked decoded_locked delete_locked
  locked-frame (Route.create_reference (decoded body)) r fault s = ground arith
  locked-frame (Route.create_reference (undecodable err)) r fault s = refl
  locked-frame (Route.update_reference (decoded body)) r fault s = ground arith
  locked-frame (Route.update_reference (undecodable err)) r fault s = refl
  locked-frame _ r fault s = ground arith

  locked-IsFramed :
      (route : Route) (r : Request) (fault : Option FaultSnapshot) (s : Server)
      → IsFramed g s
      → IsFramed g (locked route r fault s).0
  locked-IsFramed route r fault s h =
      subst (IsFramed g) (sym (locked-frame route r fault s))
        (record { manager = h.manager; peer = h.peer; plans = h.plans })

  take_fault-AreSourced :
      (operation : Text) (s : Server)
      → AreSourced g s.faults
      → AreSourced g (take_fault operation s).0.faults
        × ((f : FaultSnapshot) → (take_fault operation s).1 ≡ some f → g.Source operation f)
  unfolding take_fault spend
  take_fault-AreSourced operation s h = elim (Option-cases (lookup operation s.faults)) [
    | inl e ↦ rw (take_fault, e) (h, λ f k. cc)
    | inr (p, e) ↦
        let Armed : Text × FaultPlan → Type 0 = λ entry. g.Source entry.0 (snapshot entry.1) in
        let own : g.Source operation (snapshot p) = lookup-All Armed operation s.faults h e in
        let gives : (f : FaultSnapshot) → some (snapshot p) ≡ some f → g.Source operation f =
          λ f k. (let same : snapshot p ≡ f = cc in subst (g.Source operation) same own) in
        elim (Bool-cases (leb_ℤ p.times (pos 0))) [
          | inl none_left ↦ rw (take_fault, spend, e, none_left) (h, λ f k. cc)
          | inr some_left ↦ elim (Bool-cases (eq_ℤ (p.times -ℤ pos 1) (pos 0))) [
            | inl last ↦
                rw (take_fault, spend, e, some_left, last)
                  (All-erase Armed operation s.faults h, gives)
            | inr more ↦
                rw (take_fault, spend, e, some_left, more)
                  (All-insert Armed operation _ s.faults own h, gives)
          ]
        ]
  ]

  take_fault-IsFramed :
      (operation : Text) (s : Server)
      → IsFramed g s
      → IsFramed g (take_fault operation s).0
        × ((take_fault operation s).0.references ≡ s.references)
  take_fault-IsFramed operation s h =
      let frame = take_fault-frame operation s in
      (
        subst (IsFramed g) (sym frame) (record {
          manager = h.manager;
          peer = h.peer;
          plans = (take_fault-AreSourced operation s h.plans).0;
        }),
        ap (λ (x : Server). x.references) frame,
      )

  module _ (route : Route) (r : Request) {operation : Text}
      (e : operation_of route ≡ some operation) where
    serving-IsPending :
        (fault : Option FaultSnapshot)
        → IsPending route r (
            section
              (λ s. (locked route r fault s).0)
              (λ s. finishing r operation (intent_of route r) fault (locked route r fault s).1))
    unfolding finishing
    serving-IsPending fault s h = (
      locked-IsFramed route r fault s h,
      inr (
        locked-effect route r fault s e h,
        recording-IsIdle r operation (intent_of route r) _ fault _,
      ),
    )

    after_fault-cases :
        (fault : Option FaultSnapshot)
        → ((f : FaultSnapshot) → fault ≡ some f → g.Source operation f)
        → IsPending route r (after_fault route r operation fault)
          ⊎ (IsIdle (after_fault route r operation fault) × IsStopped g route r)
    unfolding after_fault
    after_fault-cases none source = inl (serving-IsPending none)
    after_fault-cases (some f) source = elim (Bool-cases (gives_up r f)) [
      | inl gone ↦
          rw (after_fault, gone)
            (inr (
              recording-IsIdle r operation _ _ (some f) _,
              (operation, f, e, source f refl, ground arith),
            ))
      | inr there ↦ elim (Bool-cases (eq_ℤ f.status (pos 0))) [
        | inl fine ↦ rw (after_fault, there, fine) (inl (serving-IsPending (some f)))
        | inr fails ↦
            rw (after_fault, there, fails)
              (inr (
                recording-IsIdle r operation _ _ (some f) _,
                (operation, f, e, source f refl, ground arith),
              ))
      ]
    ]

    pub endpoint-IsPending : IsPending route r (thread route r)
    unfolding thread endpoint_thread
    endpoint-IsPending =
        rw (thread, e)
          (λ s h.
            let (kept, same) = take_fault-IsFramed operation s h in
            (
              kept,
              inl (
                same,
                after_fault-cases (take_fault operation s).1
                    (take_fault-AreSourced operation s h.plans).1,
              ),
            ))
