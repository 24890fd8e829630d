-- ===== src/Assertions/Eventually.antt =====
-- The sampling loop Eventually of assertions/invariants.go. Each round of the loop brings what
-- the probe observes and whether the context ends while the timer runs.
use aero_arc_testing_harness.Prelude.{
  ℤ, pos, Bool, List, [], ◌∷◌, ◌++◌, map, leb_ℤ, ltb_ℤ, ◌*ℤ◌, if◌then◌else◌, all,
}
use aero_arc_testing_harness.Assertions.Types.{Snapshot, Result}
use aero_arc_testing_harness.Assertions.Probe.{Observation, observed, unobserved}

pub record Round : Type 0 where
  pub seen : Observation
  pub ends : Bool

-- How the loop is left, with the samples, the results of the last check and the timers started.
-- `running` means that the rounds given are over and the loop is not.
pub data Ending : Type 0 where
  converged expired running : Ending

pub record Sampling : Type 0 where
  pub ending : Ending
  pub samples : List Snapshot
  pub last : List Result
  pub timers : List ℤ

abbrev pub second : ℤ
second = pos 1_000_000_000

-- The delay after a timer that has run out.
unfoldable pub next_delay : ℤ → ℤ
unfolding ◌*ℤ◌
next_delay delay =
    if ltb_ℤ delay second
    then (let doubled = delay *ℤ pos 2 in if ltb_ℤ second doubled then second else doubled)
    else delay

-- The results of the checks of one snapshot.
abbrev pub results : List (Snapshot → Result) → Snapshot → List Result
results checks s = map (λ check. check s) checks

abbrev pub all_passed : List Result → Bool
all_passed = all (λ r. r.passed)

module _ (checks : List (Snapshot → Result)) where
  -- The loop, from its variables.
  unfoldable pub sample : List Snapshot → List Result → List ℤ → ℤ → List Round → Sampling
  unfolding next_delay
  sample samples last timers delay [] = record {
    ending = running;
    samples = samples;
    last = last;
    timers = timers;
  }
  sample samples last timers delay (round ∷ rest) =
      let timers' = timers ++ delay ∷ [] in
      let waited = λ (samples' : List Snapshot) (last' : List Result).
        let later = sample samples' last' timers' (next_delay delay) rest in
        if round.ends
        then record { ending = expired; samples = samples'; last = last'; timers = timers' }
        else later in
      elim round.seen [
        | unobserved e ↦ waited samples last
        | observed s ↦
            if all_passed (results checks s)
            then record {
              ending = converged;
              samples = samples ++ s ∷ [];
              last = results checks s;
              timers = timers;
            }
            else waited (samples ++ s ∷ []) (results checks s)
      ]

  -- Eventually.
  unfoldable pub eventually : ℤ → List Round → Sampling
  unfolding sample
  eventually interval rounds =
      let delay = if leb_ℤ interval (pos 0) then pos 100_000_000 else interval in
      sample [] [] [] delay rounds
