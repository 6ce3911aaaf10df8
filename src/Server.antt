-- ===== src/Server.antt =====
-- The server: crates/crownline_server/src/limits.rs.
pub mod Limits
pub mod Counts
pub mod Connections
pub mod Windows
pub mod Pace
pub mod Requests
