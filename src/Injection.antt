-- ===== src/Injection.antt =====
-- Faults as behaviours (faults/fault.go) and the two ways to inject them: through the fixture
-- (faults/fixture/injector.go), and through Toxiproxy (faults/toxiproxy/injector.go) with its
-- client (internal/toxiproxy/client.go).
pub mod Fault
pub mod ByFixture
pub mod Client
pub mod ByToxiproxy
pub mod Delivery
pub mod Tests
