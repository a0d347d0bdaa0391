-- ===== src/Health/Breaker.antt =====
-- internal/health/breaker.go: the definitions and, below them, what is proved of them.
pub mod Defs
pub mod Calls
pub mod Transitions
pub mod Trial
pub mod Threshold
pub mod Reload
mod Examples
