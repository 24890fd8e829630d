-- ===== src/Stacks/Waiting.antt =====
-- What waitForAPI of internal/stack/stack.go comes to.
use aero_arc_testing_harness.Prelude.{
  ℕ, ◌≤◌, ◌≡◌, refl, sym, subst, ap, ◌∙◌, ◌+◌, true, false, List, [], ◌∷◌, ◌++◌, none, arith,
  length, All, All-append, length-append,
}
use aero_arc_testing_harness.Stacks.Readiness.{
  Round, Waiting, finished, longer, wait_rounds, wait_for_api,
}

-- The API does not answer with 200, and the context goes on.
abbrev pub GoesOn : Round → Type 0
GoesOn r = (r.ready ≡ false) × (r.context_ended ≡ none)

-- Between 50 milliseconds and a second.
abbrev pub IsModerate : ℕ → Type 0
IsModerate delay = (50_000_000 ≤ delay) × (delay ≤ 1_000_000_000)

wait_rounds-ready :
    (before later : List Round) (r : Round) (delay : ℕ) (timers : List ℕ)
    → All GoesOn before
    → r.ready ≡ true
    → IsModerate delay
    → All IsModerate timers
    → (all_timers : List ℕ) × (wait_rounds (before ++ r ∷ later) delay timers
        ≡ (all_timers, finished none))
      × (length all_timers ≡ length timers + length before)
      × All IsModerate all_timers
unfolding wait_rounds
wait_rounds-ready [] later r delay timers h ready d m =
    (timers, rw (wait_rounds, ready) refl, omega arith, m)
wait_rounds-ready (x ∷ before) later r delay timers h ready d m =
    let (all_timers, e, l, k) =
      wait_rounds-ready before later r (longer delay) (timers ++ delay ∷ []) h.1 ready
        (ground arith, ground arith) (All-append IsModerate timers (delay ∷ []) m (d, tt)) in
    (
      all_timers,
      rw (wait_rounds, h.0.0, h.0.1) e,
      omega (arith, l, length-append timers (delay ∷ [])),
      k,
    )

-- If the API answers with 200 in some round, and before it neither does it nor does the context
-- end, then the wait ends there without an error, whatever comes later; it has started one timer
-- for each round before, each of 50 milliseconds to a second.
pub wait_for_api-ready :
    (before later : List Round) (r : Round)
    → All GoesOn before
    → r.ready ≡ true
    → (wait_for_api none (before ++ r ∷ later) ≡ finished none)
      × (length (wait_rounds (before ++ r ∷ later) 50_000_000 []).0 ≡ length before)
      × All IsModerate (wait_rounds (before ++ r ∷ later) 50_000_000 []).0
unfolding wait_for_api
wait_for_api-ready before later r h ready =
    let (timers, e, l, k) =
      wait_rounds-ready before later r 50_000_000 [] h ready (ground arith, ground arith) tt in
    let same = ap (λ (x : List ℕ × Waiting). x.0) e in
    (
      ap (λ (x : List ℕ × Waiting). x.1) e,
      ap length same ∙ omega (arith, l),
      subst (All IsModerate) (sym same) k,
    )
