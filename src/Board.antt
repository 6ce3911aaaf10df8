-- ===== src/Board.antt =====
-- The board of crates/crownline_core/src/rules.rs: geometry, rays, attacks and pseudo-legal moves.
pub mod Reach
pub mod Locality
pub mod Agreement
pub mod Geometry
pub mod Rays
pub mod Governance
pub mod Attacks
pub mod Moves
