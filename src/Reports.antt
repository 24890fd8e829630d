-- ===== src/Reports.antt =====
-- The evidence reports of reports/report.go and reports/timeline.go.
pub mod Types
pub mod Parse
pub mod Reading
pub mod Listing
pub mod Summaries
pub mod Leaves
pub mod Packages
pub mod Junit
pub mod Markdown
pub mod Cells
pub mod Bundle
pub mod Command
pub mod Timeline
pub mod Roundtrip
pub mod Tests
