-- ===== src/Scenario.antt =====
-- Scenario definitions: crates/crownline_core/src/scenario.rs.
pub mod Types
pub mod Errors
pub mod CoordSet
pub mod Header
pub mod Sites
pub mod Keeps
pub mod Castling
pub mod Validate
pub mod Sound
pub mod Variant
