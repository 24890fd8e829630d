-- ===== src/Fixture/Interleaving.antt =====
-- Threads of internal/fixture/server.go that run alone, and that are interleaved by a scheduler.
use aero_arc_testing_harness.Prelude.{ℕ, zero, suc, List, [], ◌∷◌}
use aero_arc_testing_harness.Fixture.Types.{Server, Request, Reply}
use aero_arc_testing_harness.Fixture.Router.{Route}
use aero_arc_testing_harness.Fixture.Threads.{Thread, ended, section, thread}

-- A thread that runs alone.
unfoldable pub run_alone : Thread → Server → Server × Reply
run_alone (ended reply) s = (s, reply)
run_alone (section f k) s = run_alone (k s) (f s)

-- A request that has arrived, with what is left of its thread.
pub record Task : Type 0 where
  pub route : Route
  pub request : Request
  pub rest : Thread

-- What the scheduler does: a request arrives, or the task at a place goes through its next section.
pub data Move : Type 0 where
  arrive : Route → Request → Move
  advance : (place : ℕ) → Move

unfoldable pub progress : Thread → Server → Server × Thread
progress (ended reply) s = (s, ended reply)
progress (section f k) s = (f s, k s)

unfoldable pub advanced : ℕ → Server → List Task → Server × List Task
advanced place s [] = (s, [])
advanced zero s (t ∷ tasks) =
    ((progress t.rest s).0, record t { rest = (progress t.rest s).1 } ∷ tasks)
advanced (suc place) s (t ∷ tasks) = let r = advanced place s tasks in (r.0, t ∷ r.1)

unfoldable pub moved : Move → Server × List Task → Server × List Task
moved (arrive route r) (s, tasks) =
    (s, record { route = route; request = r; rest = thread route r } ∷ tasks)
moved (advance place) (s, tasks) = advanced place s tasks

-- An interleaving.
unfoldable pub play : List Move → Server × List Task → Server × List Task
play [] c = c
play (m ∷ moves) c = play moves (moved m c)
