-- ===== src/Journal.antt =====
-- The journal of accepted actions: crates/crownline_core/src/journal.rs.
pub mod Equality
pub mod Types
pub mod Append
pub mod Replay
pub mod RoundTrip
pub mod Session
pub mod Idempotency
pub mod Tail
pub mod Trust
pub mod Codec
pub mod Migration
