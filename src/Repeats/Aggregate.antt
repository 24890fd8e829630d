-- ===== src/Repeats/Aggregate.antt =====
-- aggregate of cmd/e2e-repeat-report/main.go. The directory's entries, the time, and the order in
-- which the map of scenarios is ranged over are arguments.
use aero_arc_testing_harness.Prelude.{
  ℕ, zero, suc, ℤ, pos, ◌+◌, ◌*◌, ◌-◌, ◌/◌, ◌%◌, ◌^◌, true, false, List, [], ◌∷◌, ◌++◌, Option,
  none, some, Text, text, text_eq, text_less, if◌then◌else◌, ◌==◌, ltb, eq_ℤ, ltb_ℤ, Dict, lookup,
  insert, ◌>>=◌, Outcome, ok, failed, length, sort,
}
use aero_arc_testing_harness.Fixture.Types.{decoded, undecodable}
use aero_arc_testing_harness.Repeats.Types.{
  TestResult, RunSummary, ScenarioAggregate, RepeatSummary, Entry, Ending, returned, panicked,
}

-- The float64 nearest to 0.95 is this many times 2 ^ -53.
abbrev pub ninety_five : ℕ
ninety_five = 8_556_839_292_003_942

abbrev pub two_53 : ℕ
two_53 = 9_007_199_254_740_992

-- How often a number is halved until it has at most 53 bits.
unfoldable pub exponent : (rounds : ℕ) → ℕ → ℕ
exponent zero p = 0
exponent (suc rounds) p = let e = exponent rounds (p / 2) in if ltb p two_53 then 0 else suc e

-- Rounding to the nearest number of 53 bits and a power of two, ties to even.
unfoldable pub round_even : (unit : ℕ) → ℕ → ℕ
round_even unit p =
    let q = p / unit in
    let r = p % unit in
    if ltb (2 * r) unit
    then q
    else if ltb unit (2 * r)
    then q + 1
    else if q % 2 == 0
    then q
    else q + 1

abbrev pub rounded : ℕ → ℕ
rounded p = let unit = 2 ^ exponent 64 p in round_even unit p * unit

-- int(math.Ceil(float64(n)*0.95)) - 1.
unfoldable pub percentile_index : ℕ → ℕ
percentile_index n = (rounded (ninety_five * n) + (two_53 - 1)) / two_53 - 1

abbrev pub get_elem? {ℓ} : {A : Type ℓ} → List A → ℕ → Option A
get_elem? [] i = none
get_elem? (x ∷ l) zero = some x
get_elem? (x ∷ l) (suc i) = get_elem? l i

pub record Aggregation : Type 0 where
  pub result : RepeatSummary
  pub by_scenario : Dict ScenarioAggregate

abbrev pub new_scenario : Text → ScenarioAggregate
new_scenario name = record {
  name = name;
  executions = 0;
  passed = 0;
  failed = 0;
  p95_seconds = pos 0;
  max_seconds = pos 0;
  durations = [];
}

abbrev pub or_new : Text → Option ScenarioAggregate → ScenarioAggregate
or_new name none = new_scenario name
or_new name (some a) = a

unfoldable pub executed : TestResult → ScenarioAggregate → ScenarioAggregate
executed t a =
    let a' : ScenarioAggregate = record a {
      executions = a.executions + 1;
      durations = a.durations ++ t.elapsed ∷ [];
    } in
    if text_eq t.status (text "pass")
    then record a' { passed = a.passed + 1 }
    else if text_eq t.status (text "fail")
    then record a' { failed = a.failed + 1 }
    else a'

-- The loop over the tests of a run.
unfoldable pub take_tests : List TestResult → Dict ScenarioAggregate → Dict ScenarioAggregate
take_tests [] m = m
take_tests (t ∷ rest) m =
    take_tests rest (insert t.name (executed t (or_new t.name (lookup t.name m))) m)

unfoldable pub take_run : RunSummary → Aggregation → Aggregation
take_run run s =
    let r = s.result in
    let r' : RepeatSummary =
      if eq_ℤ run.failed (pos 0) then record r { passing_runs = r.passing_runs + 1 } else record r {
        failing_runs = r.failing_runs + 1;
        failed_run_ids = r.failed_run_ids ++ run.run_id ∷ [];
      } in
    record {
      result = record r' {
        runs = r.runs + 1;
        scenario_executions = r.scenario_executions + length run.tests;
      };
      by_scenario = take_tests run.tests s.by_scenario;
    }

-- The loop over the entries.
unfoldable pub take_entries : List Entry → Aggregation → Outcome Aggregation
take_entries [] s = ok s
take_entries (e ∷ rest) s = elim e.is_dir [
  | false ↦ take_entries rest s
  | true ↦ elim e.payload [
    | none ↦ take_entries rest s
    | some (undecodable m) ↦ failed (text "decode " ++ e.name ++ text " summary: " ++ m)
    | some (decoded run) ↦ take_entries rest (take_run run s)
  ]
]

-- The statistics of a scenario, or none where an index is out of range.
unfoldable pub with_statistics : ScenarioAggregate → Option ScenarioAggregate
with_statistics a =
    let sorted = sort (λ d. d) ltb_ℤ a.durations in
    do
      longest ← get_elem? sorted (length sorted - 1)
      p95 ← get_elem? sorted (percentile_index (length sorted))
      some (record a { durations = sorted; max_seconds = longest; p95_seconds = p95 })

-- The loop over the scenarios.
unfoldable pub take_scenarios : Dict ScenarioAggregate → Option (List ScenarioAggregate)
take_scenarios [] = some []
take_scenarios ((k, a) ∷ rest) = do b ← with_statistics a; l ← take_scenarios rest; some (b ∷ l)

abbrev pub scenario_name : ScenarioAggregate → Text
scenario_name a = a.name

abbrev pub begin_aggregation : ℤ → Aggregation
begin_aggregation now = record {
  result = record {
    generated_at = now;
    runs = 0;
    passing_runs = 0;
    failing_runs = 0;
    scenario_executions = 0;
    scenarios = [];
    failed_run_ids = [];
  };
  by_scenario = [];
}

unfoldable pub conclude_runs :
    (root : Text) (range : Dict ScenarioAggregate → Dict ScenarioAggregate)
    → Aggregation
    → Ending (Outcome RepeatSummary)
conclude_runs root range s =
    if s.result.runs == 0
    then returned (failed (text "no run summaries found in " ++ root))
    else elim (take_scenarios (range s.by_scenario)) [
      | none ↦ panicked
      | some l ↦ returned (
          ok (record s.result {
            scenarios = sort scenario_name text_less l;
            failed_run_ids = sort (λ t. t) text_less s.result.failed_run_ids;
          }))
    ]

-- aggregate.
unfoldable pub aggregate :
    (now : ℤ) (root : Text) (range : Dict ScenarioAggregate → Dict ScenarioAggregate)
    → Outcome (List Entry)
    → Ending (Outcome RepeatSummary)
aggregate now root range (failed e) = returned (failed (text "read repeat directory: " ++ e))
aggregate now root range (ok entries) = elim (take_entries entries (begin_aggregation now)) [
  | failed e ↦ returned (failed e)
  | ok s ↦ conclude_runs root range s
]
