-- ===== src/Stacks.antt =====
-- The environment of containers, internal/stack/stack.go.
pub mod Types
pub mod Readiness
pub mod Lifecycle
pub mod Waiting
pub mod Upkeep
pub mod Teardown
pub mod Replacement
pub mod Actions
pub mod Startup
pub mod Requests
pub mod Names
pub mod Tracking
pub mod Steps
pub mod Quiet
pub mod Aftermath
pub mod Cleanup
pub mod Sparing
pub mod Inputs
pub mod StartTests
pub mod Tests
