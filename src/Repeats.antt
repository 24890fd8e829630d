-- ===== src/Repeats.antt =====
-- The report over repeated runs, cmd/e2e-repeat-report.
pub mod Types
pub mod Aggregate
pub mod Percentile
pub mod Tallies
pub mod Statistics
pub mod Scenarios
pub mod Runs
pub mod Write
pub mod Tests
