-- ===== src/RealDss.antt =====
-- The environment with a real DSS, internal/realdss/stack.go.
pub mod Types
pub mod Requests
pub mod Operations
pub mod Startup
pub mod Quiet
pub mod Cleanup
pub mod Migrations
pub mod Observer
pub mod Observed
pub mod Tests
