-- ===== src/Resilience.antt =====
-- runtime/resilience.py: retries, the circuit breaker, and the store of idempotency records.
pub mod Retry
pub mod Breaker
pub mod Idempotency
