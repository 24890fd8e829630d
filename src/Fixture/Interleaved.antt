-- ===== src/Fixture/Interleaved.antt =====
-- What holds of the references of internal/fixture/server.go under every interleaving.
use aero_arc_testing_harness.Prelude.{List, [], ◌∷◌, Dict, All, Distinct}
use aero_arc_testing_harness.Fixture.Types.{
  FaultPlan, Server, Reference, Request, decoded, undecodable,
}
use aero_arc_testing_harness.Fixture.Router.{Route}
use aero_arc_testing_harness.Fixture.Invariant.{IsWellFormed, IsStored}
use aero_arc_testing_harness.Fixture.Preservation.{handle-IsWellFormed}
use aero_arc_testing_harness.Fixture.Atomic.{Ground, AreSourced, effect}
use aero_arc_testing_harness.Fixture.Interleaving.{Move, arrive, advance, play}
use aero_arc_testing_harness.Fixture.Specification.{
  Slot, Atomically, stays, commits, leaves, beyond, Runs, begun, joins, goes_on,
}
use aero_arc_testing_harness.Fixture.Linear.{IsSourced, AllSourced, play-atomic}

-- Every reference is stored under its id, once, with the OVN of its version.
abbrev pub AreStored : Dict Reference → Type 0
AreStored refs = All IsStored refs × Distinct refs

module _ (g : Ground) (w : IsWellFormed g.server) where
  effect-AreStored :
      (route : Route) (r : Request) (refs : Dict Reference)
      → AreStored refs
      → AreStored (effect g.server route r refs)
  effect-AreStored route r refs h =
      let kept =
        handle-IsWellFormed route r (record g.server { references = refs; faults = [] })
          (record {
            stored = h.0;
            distinct = h.1;
            armed = tt;
            numbered = w.numbered;
            counted = w.counted;
          }) in
      (kept.stored, kept.distinct)

  Atomically-AreStored :
      {refs refs' : Dict Reference} {slots slots' : List Slot}
      → Atomically g refs slots refs' slots'
      → AreStored refs
      → AreStored refs'
  Atomically-AreStored (stays refs slots) h = h
  Atomically-AreStored (commits refs slots route r) h = effect-AreStored route r refs h
  Atomically-AreStored (leaves refs slots route r stop) h = h
  Atomically-AreStored (beyond x a) h = Atomically-AreStored a h

  Runs-AreStored :
      {start : Dict Reference} {requests : List (Route × Request)} {refs : Dict Reference}
      {slots : List Slot}
      → Runs g start requests refs slots
      → AreStored start
      → AreStored refs
  Runs-AreStored begun h = h
  Runs-AreStored (joins route r run) h = Runs-AreStored run h
  Runs-AreStored (goes_on run a) h = Atomically-AreStored a (Runs-AreStored run h)

-- Any fault may be armed.
abbrev any_fault : Server → Ground
any_fault s = record { server = s; Source = λ operation fault. Unit }

any-AreSourced : (s : Server) (plans : Dict FaultPlan) → AreSourced (any_fault s) plans
any-AreSourced s [] = tt
any-AreSourced s (x ∷ plans) = (tt, any-AreSourced s plans)

any-IsSourced : (s : Server) (route : Route) → IsSourced (any_fault s) route
any-IsSourced s (Route.arm_fault (decoded p)) = tt
any-IsSourced s (Route.arm_fault (undecodable err)) = tt
any-IsSourced s _ = tt

any-AllSourced : (s : Server) (moves : List Move) → AllSourced (any_fault s) moves
any-AllSourced s [] = tt
any-AllSourced s (arrive route r ∷ moves) = (any-IsSourced s route, any-AllSourced s moves)
any-AllSourced s (advance place ∷ moves) = any-AllSourced s moves

-- However the threads of requests to a well-formed server are interleaved, section by section, and
-- whatever faults are armed: every reference is stored under its id, once, with the OVN of its
-- version.
pub play-AreStored :
    (moves : List Move) (s : Server) → IsWellFormed s → AreStored (play moves (s, [])).0.references
play-AreStored moves s w =
    let g = any_fault s in
    let (slots, run, matched) =
      play-atomic g moves (any-AreSourced s s.faults) (any-AllSourced s moves) in
    Runs-AreStored g w run (w.stored, w.distinct)
