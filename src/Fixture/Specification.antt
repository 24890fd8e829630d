-- ===== src/Fixture/Specification.antt =====
-- A specification of the references of internal/fixture/server.go, in which each request takes its
-- effect on them in one go, or none, and how the threads of requests stand to it.
use aero_arc_testing_harness.Prelude.{List, [], ◌∷◌, Dict}
use aero_arc_testing_harness.Fixture.Types.{Reference, Request}
use aero_arc_testing_harness.Fixture.Router.{Route}
use aero_arc_testing_harness.Fixture.Threads.{Thread}
use aero_arc_testing_harness.Fixture.Interleaving.{Task, Move, arrive, advance}
use aero_arc_testing_harness.Fixture.Atomic.{Ground, effect, IsStopped, IsIdle, IsPending}

-- A request that is still to take its effect, or one that has, or that ends without it.
pub data Slot : Type 0 where
  waiting : Route → Request → Slot
  over : Slot

-- The requests of some moves, the last one first.
abbrev pub arrived : List Move → List (Route × Request) → List (Route × Request)
arrived [] requests = requests
arrived (arrive route r ∷ moves) requests = arrived moves ((route, r) ∷ requests)
arrived (advance place ∷ moves) requests = arrived moves requests

module _ (g : Ground) where
  -- A step of the specification: nothing happens, or a waiting request takes its effect, or one
  -- that a fault stops is over without it.
  pub data Atomically : Dict Reference → List Slot → Dict Reference → List Slot → Type 0 where
    stays : (refs : Dict Reference) (slots : List Slot) → Atomically refs slots refs slots
    commits :
        (refs : Dict Reference) (slots : List Slot) (route : Route) (r : Request)
        → Atomically refs (waiting route r ∷ slots) (effect g.server route r refs) (over ∷ slots)
    leaves :
        (refs : Dict Reference) (slots : List Slot) (route : Route) (r : Request)
        → IsStopped g route r
        → Atomically refs (waiting route r ∷ slots) refs (over ∷ slots)
    beyond :
        {refs refs' : Dict Reference} {slots slots' : List Slot} (x : Slot)
        → Atomically refs slots refs' slots'
        → Atomically refs (x ∷ slots) refs' (x ∷ slots')

  -- A run of the specification: requests join it, and steps are taken.
  pub data Runs (start : Dict Reference)
      : List (Route × Request) → Dict Reference → List Slot → Type 0 where
    begun : Runs start [] start []
    joins :
        {requests : List (Route × Request)} {refs : Dict Reference} {slots : List Slot}
        (route : Route) (r : Request)
        → Runs start requests refs slots
        → Runs start ((route, r) ∷ requests) refs (waiting route r ∷ slots)
    goes_on :
        {requests : List (Route × Request)} {refs refs' : Dict Reference} {slots slots' : List Slot}
        → Runs start requests refs slots
        → Atomically refs slots refs' slots'
        → Runs start requests refs' slots'

  -- What is left of a thread, by its slot.
  abbrev pub Fits : Thread → Slot → Type 0
  Fits t (waiting route r) = IsPending g route r t
  Fits t over = IsIdle g t

  abbrev pub IsMatched : List Task → List Slot → Type 0
  IsMatched [] [] = Unit
  IsMatched [] (x ∷ slots) = ⊥
  IsMatched (t ∷ tasks) [] = ⊥
  IsMatched (t ∷ tasks) (x ∷ slots) = Fits t.rest x × IsMatched tasks slots
