-- ===== src/Cluster.antt =====
-- internal/cluster/cluster.go: health findings shared between replicas by gossip.
pub mod Defs
pub mod Entries
pub mod Consistency
pub mod Spread
pub mod Transport
mod Examples
