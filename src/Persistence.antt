-- ===== src/Persistence.antt =====
-- Saves and snapshots: crates/crownline_core/src/persistence.rs.
pub mod Types
pub mod Envelope
pub mod Reader
pub mod Atomic
pub mod Integrity
pub mod Belonging
pub mod Snapshots
pub mod Atomicity
