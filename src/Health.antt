-- ===== src/Health.antt =====
-- internal/health: the circuit breaker, the probe scheduler and the two probe endpoints.
pub mod Breaker
pub mod Scheduler
