-- ===== src/Repeats/Tests.antt =====
-- A directory with two runs, and the results at it for cmd/e2e-repeat-report.
use mathlib.Core.List.Perm
use aero_arc_testing_harness.Prelude.{
  ℕ, ℤ, pos, ◌≡◌, refl, arith, true, false, List, [], ◌∷◌, none, some, text, ok,
}
use aero_arc_testing_harness.Fixture.Types.{decoded}
use aero_arc_testing_harness.Repeats.Types.{RunSummary, RepeatSummary, Entry, returned}
use aero_arc_testing_harness.Repeats.Aggregate.{percentile_index, exponent, round_even, aggregate}
use aero_arc_testing_harness.Repeats.Runs.{runs_of, IsReport, aggregate-IsReport}

abbrev run : ℕ → ℤ → RunSummary
run n failures = record {
  run_id = n ∷ [];
  passed = pos 1;
  failed = failures;
  skipped = pos 0;
  duration = pos 5;
  tests =
      record { name = text "takeoff"; status = text "pass"; elapsed = pos n }
      ∷ record { name = text "landing"; status = text "fail"; elapsed = pos 2 }
      ∷ [];
}

abbrev entries : List Entry
entries =
    record { name = text "run-2"; is_dir = true; payload = some (decoded (run 52 (pos 1))) }
    ∷ record { name = text "notes"; is_dir = false; payload = none }
    ∷ record { name = text "empty"; is_dir = true; payload = none }
    ∷ record { name = text "run-1"; is_dir = true; payload = some (decoded (run 51 (pos 0))) }
    ∷ []

aggregate-IsReport_example :
    (r : RepeatSummary) × (aggregate (pos 9) (text "artifacts") (λ m. m) (ok entries)
      ≡ returned (ok r))
    × IsReport (runs_of entries) r
aggregate-IsReport_example =
    aggregate-IsReport (pos 9) (text "artifacts") (λ m. m) entries (λ m. Perm.rfl)
      ((λ m h. cc), ((λ m h. cc), ((λ m h. cc), ((λ m h. cc), tt)))) (omega arith) (omega arith)

-- The rank of 20 durations is the 19th and that of 21 the 20th.
percentile_index-20 : percentile_index 20 ≡ 18
unfolding percentile_index exponent round_even
percentile_index-20 = refl

percentile_index-21 : percentile_index 21 ≡ 19
unfolding percentile_index exponent round_even
percentile_index-21 = refl
