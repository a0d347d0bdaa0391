-- ===== src/Balancer.antt =====
-- internal/balancer/balancer.go: the five balancing strategies and their factory.
pub mod Types
pub mod Walk
pub mod WeightedRoundRobin
pub mod LeastConnections
pub mod Random
pub mod Factory
pub mod Chosen
pub mod Refused
pub mod Members
mod Examples
