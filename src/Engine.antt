-- ===== src/Engine.antt =====
-- cli/engine.go: the generations of routing state, and the health map of cli/main.go. The gauges are
-- in Gauges; what the engine logs is left out.
mod Defs
pub mod Pool
pub mod Rebuild
pub mod Swappable
pub mod Accepted
pub mod Demands
pub mod Readiness
pub mod Gauges
pub mod Seeded
mod Examples
unfoldable pub use Defs.*
