-- ===== src/Stacks/Readiness.antt =====
-- waitForAPI of internal/stack/stack.go. Its rounds are given: whether the API answers with 200,
-- and whether the context ends.
use aero_arc_testing_harness.Prelude.{
  ℕ, ◌*◌, ltb, Bool, List, [], ◌∷◌, ◌++◌, Option, none, some, Text, text, if◌then◌else◌,
}

-- A round of waitForAPI: whether the API answers with 200, and whether the context ends before
-- the timer fires.
pub record Round : Type 0 where
  pub ready : Bool
  pub context_ended : Option Text

pub data Waiting : Type 0 where
  finished : Option Text → Waiting
  waiting : Waiting

-- The delay doubles up to a second.
abbrev pub longer : ℕ → ℕ
longer delay =
    if ltb delay 1_000_000_000
    then (if ltb 1_000_000_000 (delay * 2) then 1_000_000_000 else delay * 2)
    else delay

-- The loop of waitForAPI, for the rounds that are given, with the timers that it starts.
unfoldable pub wait_rounds : List Round → (delay : ℕ) → (timers : List ℕ) → List ℕ × Waiting
wait_rounds [] delay timers = (timers, waiting)
wait_rounds (r ∷ rest) delay timers =
    let next = wait_rounds rest (longer delay) (timers ++ delay ∷ []) in
    if r.ready then (timers, finished none) else elim r.context_ended [
      | some e ↦ (
        timers ++ delay ∷ [],
        finished (some (text "wait for restarted Aero Arc API readiness: " ++ e)),
      )
      | none ↦ next
    ]

-- waitForAPI, with the error of a URL that makes no request, if there is one.
unfoldable pub wait_for_api : (bad_url : Option Text) → List Round → Waiting
wait_for_api (some e) rounds = finished (some (text "create API readiness request: " ++ e))
wait_for_api none rounds = (wait_rounds rounds 50_000_000 []).1
