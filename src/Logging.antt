-- ===== src/Logging.antt =====
-- internal/logging: the MessagePack encoder and the batching exporter.
pub mod Msgpack
pub mod Batch
pub mod Exporters
