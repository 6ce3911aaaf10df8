-- ===== src/State.antt =====
-- The canonical match state: crates/crownline_core/src/state.rs.
pub mod Sight
pub mod Range
pub mod Cache
pub mod Knowledge
pub mod Types
pub mod Errors
pub mod Invariants
pub mod NonBoard
pub mod Repetition
pub mod Vision
pub mod Create
pub mod Begun
pub mod WellFormed
pub mod Steps
