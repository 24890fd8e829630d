-- ===== src/Fixture.antt =====
-- internal/fixture: the deterministic DSS and peer fixture.
pub mod Operation
pub mod Types
pub mod Wire
pub mod Faults
pub mod References
pub mod Router
pub mod Reading
pub mod Endpoints
pub mod Frame
pub mod Locking
pub mod Versions
pub mod Contents
pub mod Edges
pub mod Samples
pub mod Threads
pub mod Interleaving
pub mod Alone
pub mod Atomic
pub mod Specification
pub mod Linear
pub mod Interleaved
pub mod Races
mod ThreadTests
mod Tests
pub mod Transparency
pub mod Journal
pub mod Numbers
pub mod Budget
pub mod Invariant
pub mod Preservation
