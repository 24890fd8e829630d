-- ===== src/Reports/Types.antt =====
-- The data of reports/report.go. A number of seconds is a float64 that the code only compares,
-- copies and prints: it is kept as an integer, in units of 2 ^ -1074, of which every finite
-- float64 is a multiple. A counter is at most the number of lines read, and does not wrap around.
use aero_arc_testing_harness.Prelude.{ℕ, ℤ, List, Text, Outcome}

pub record TestResult : Type 0 where
  pub pkg : Text
  pub name : Text
  pub status : Text
  pub elapsed : ℤ
  pub output : Text

-- A map of details: empty, or with what json.Marshal makes of it.
pub data Details : Type 0 where
  empty : Details
  marshalled : Outcome Text → Details

-- A checkpoint, TimelineEvent of reports/timeline.go.
pub record Checkpoint : Type 0 where
  pub at : ℤ
  pub scenario : Text
  pub phase : Text
  pub name : Text
  pub status : Text
  pub details : Details

pub record Summary : Type 0 where
  pub run_id : Text
  pub generated_at : ℤ
  pub passed : ℕ
  pub failed : ℕ
  pub skipped : ℕ
  pub duration : ℤ
  pub tests : List TestResult
  pub checkpoints : List Checkpoint

-- `Time` is decoded and not used.
pub record GoTestEvent : Type 0 where
  pub action : Text
  pub pkg : Text
  pub test : Text
  pub elapsed : ℤ
  pub output : Text
