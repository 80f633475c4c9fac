-- ===== src/Adapter.antt =====
-- packages/sdid-adapter/src/resilience.ts: the circuit breaker and the retries around a strategy.
pub mod Breaker
pub mod Execute
pub mod Genuine
pub mod Recovery
pub mod Tests
