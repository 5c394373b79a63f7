-- ===== src/Resilience.antt =====
-- internal/resilience: the circuit breaker and the retry loop.
pub mod Circuit
pub mod Retry
