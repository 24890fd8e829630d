-- ===== src/Scenarios.antt =====
-- The scenario runner of scenarios/runner.go.
pub mod Runner
pub mod Brackets
pub mod Tests
