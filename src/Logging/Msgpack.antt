-- ===== src/Logging/Msgpack.antt =====
-- internal/logging/msgpack.go: the encoder, and its round trip.
pub mod Defs
pub mod Tokens
pub mod Words
pub mod Fits
pub mod Sorting
pub mod RoundTrip
mod Examples
