-- ===== src/Repeats/Types.antt =====
-- The data of cmd/e2e-repeat-report/main.go. Seconds are as in Reports; a counter of runs, tests or
-- scenarios does not wrap around.
use aero_arc_testing_harness.Prelude.{ℕ, ℤ, Bool, List, Option, Text}
use aero_arc_testing_harness.Fixture.Types.{Decoded}

pub record TestResult : Type 0 where
  pub name : Text
  pub status : Text
  pub elapsed : ℤ

pub record RunSummary : Type 0 where
  pub run_id : Text
  pub passed : ℤ
  pub failed : ℤ
  pub skipped : ℤ
  pub duration : ℤ
  pub tests : List TestResult

pub record ScenarioAggregate : Type 0 where
  pub name : Text
  pub executions : ℕ
  pub passed : ℕ
  pub failed : ℕ
  pub p95_seconds : ℤ
  pub max_seconds : ℤ
  pub durations : List ℤ

pub record RepeatSummary : Type 0 where
  pub generated_at : ℤ
  pub runs : ℕ
  pub passing_runs : ℕ
  pub failing_runs : ℕ
  pub scenario_executions : ℕ
  pub scenarios : List ScenarioAggregate
  pub failed_run_ids : List Text

-- An entry of the directory, and its summary.json if that can be read, as it decodes.
pub record Entry : Type 0 where
  pub name : Text
  pub is_dir : Bool
  pub payload : Option (Decoded RunSummary)

-- What a function does that may index a slice out of its range.
pub data Ending (A : Type 0) : Type 0 where
  returned : A → Ending A
  panicked : Ending A
