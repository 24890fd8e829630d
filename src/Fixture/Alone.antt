-- ===== src/Fixture/Alone.antt =====
-- A thread of internal/fixture/server.go that nothing interleaves does what its handler does.
use aero_arc_testing_harness.Prelude.{
  ℤ, pos, eq_ℤ, ◌≡◌, refl, sym, subst, ◌∙◌, Option, none, some, inl, inr, Text, arith, Bool-cases,
  Option-cases,
}
use aero_arc_testing_harness.Fixture.Types.{
  FaultSnapshot, Server, Request, Reply, decoded, undecodable, unwritten,
}
use aero_arc_testing_harness.Fixture.Wire.{record_event, respond}
use aero_arc_testing_harness.Fixture.Faults.{take_fault, pre_commit_fault, gives_up}
use aero_arc_testing_harness.Fixture.References.{
  unless_faulted, put, put_decoded, conclude, delete, get_reference, query_references,
}
use aero_arc_testing_harness.Fixture.Router.{
  Route, handle, handle_reset, subscriptions, peer_details, peer_notify,
}
use aero_arc_testing_harness.Fixture.Endpoints.{operation_of, intent_of, served, handle-served}
use aero_arc_testing_harness.Fixture.Threads.{
  append_event, recording, resetting, put_locked, decoded_locked, delete_locked, locked, finishing,
  after_fault, endpoint_thread, control_thread, thread,
}
use aero_arc_testing_harness.Fixture.Interleaving.{run_alone}

recording-alone :
    (r : Request) (operation intent_id : Text) (status : ℤ) (fault : Option FaultSnapshot)
    (reply : Reply) (s : Server)
    → run_alone (recording r operation intent_id status fault reply) s
      ≡ (record_event r operation intent_id status fault s, reply)
unfolding recording run_alone append_event record_event
recording-alone r operation intent_id status fault reply s = refl

-- A handler after its fault is its section, the journal entry and the answer.
locked-served :
    (route : Route) (r : Request) {operation : Text} (fault : Option FaultSnapshot) (s : Server)
    → operation_of route ≡ some operation
    → served route r fault s ≡ (
      record_event r operation
          (intent_of route r)
          (locked route r fault s).1.status
          fault
          (locked route r fault s).0,
      (locked route r fault s).1.reply,
    )
unfolding served locked query_references subscriptions peer_notify get_reference delete peer_details
    put_decoded put conclude respond put_locked decoded_locked delete_locked
locked-served Route.query_references r fault s e = ground (arith, e)
locked-served (Route.create_reference (decoded body)) r fault s e = ground (arith, e)
locked-served (Route.create_reference (undecodable err)) r fault s e = ground (arith, e)
locked-served (Route.update_reference (decoded body)) r fault s e = ground (arith, e)
locked-served (Route.update_reference (undecodable err)) r fault s e = ground (arith, e)
locked-served _ r fault s e = ground (arith, e)

module _ (route : Route) (r : Request) {operation : Text}
    (e : operation_of route ≡ some operation) where
  serving-alone :
      (fault : Option FaultSnapshot) (s : Server)
      → run_alone
          (finishing r operation (intent_of route r) fault (locked route r fault s).1)
          (locked route r fault s).0
        ≡ served route r fault s
  unfolding finishing
  serving-alone fault s =
      recording-alone r operation (intent_of route r) _ fault _ _
      ∙ sym (locked-served route r fault s e)

  after_fault-alone :
      (fault : Option FaultSnapshot) (s : Server)
      → run_alone (after_fault route r operation fault) s
        ≡ (elim (pre_commit_fault r operation (intent_of route r) fault s) [
          | some outcome ↦ outcome
          | none ↦ served route r fault s
        ])
  unfolding after_fault pre_commit_fault run_alone
  after_fault-alone none s = serving-alone none s
  after_fault-alone (some f) s = elim (Bool-cases (gives_up r f)) [
    | inl gone ↦
        rw (after_fault, pre_commit_fault, gone)
          (recording-alone r operation (intent_of route r) (pos 499) (some f) unwritten s)
    | inr there ↦ elim (Bool-cases (eq_ℤ f.status (pos 0))) [
      | inl fine ↦ rw (after_fault, pre_commit_fault, there, fine) (serving-alone (some f) s)
      | inr fails ↦
          rw (after_fault, pre_commit_fault, there, fails)
            (unfold respond in
              recording-alone r operation (intent_of route r) f.status (some f) _ s)
    ]
  ]

  endpoint-alone : (s : Server) → run_alone (thread route r) s ≡ handle route r s
  unfolding thread endpoint_thread run_alone unless_faulted
  endpoint-alone s =
      rw (thread, e)
        (after_fault-alone (take_fault operation s).1 (take_fault operation s).0
          ∙ sym (handle-served route r s e))

abbrev IsAlone : Route → Request → Option Text → Type 0
IsAlone route r (some operation) = Unit
IsAlone route r none = (s : Server) → run_alone (thread route r) s ≡ handle route r s

control-IsAlone : (route : Route) (r : Request) → IsAlone route r (operation_of route)
unfolding thread control_thread resetting run_alone handle handle_reset
control-IsAlone Route.health r = λ s. refl
control-IsAlone Route.reset r = λ s. refl
control-IsAlone (Route.arm_fault p) r = λ s. refl
control-IsAlone Route.clear_faults r = λ s. refl
control-IsAlone Route.list_events r = λ s. refl
control-IsAlone Route.state r = λ s. refl
control-IsAlone Route.rotate_ovn r = λ s. refl
control-IsAlone _ r = tt

-- A request whose thread is not interleaved with others is handled in one go: the sections of its
-- thread, one after the other, change the server as its handler does and give its answer.
thread-alone :
    (route : Route) (r : Request) (s : Server) → run_alone (thread route r) s ≡ handle route r s
thread-alone route r s = elim (Option-cases (operation_of route)) [
  | inr (operation, e) ↦ endpoint-alone route r e s
  | inl control ↦ subst (IsAlone route r) control (control-IsAlone route r) s
]
