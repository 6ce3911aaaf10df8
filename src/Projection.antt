-- ===== src/Projection.antt =====
-- What a seat is shown of a match: crates/crownline_core/src/projection.rs.
pub mod Types
pub mod View
pub mod Intents
pub mod Events
pub mod Named
pub mod Privacy
pub mod Facts
pub mod Discretion
