-- ===== src/Assertions.antt =====
-- assertions/invariants.go: the invariants over the independent authorities, and their probe.
pub mod Types
pub mod Checks
pub mod Probe
pub mod Eventually
pub mod Convergence
pub mod Authority
pub mod Tests
