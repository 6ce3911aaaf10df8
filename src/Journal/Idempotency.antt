-- ===== src/Journal/Idempotency.antt =====
-- Requests that come twice: `append_timed` of crates/crownline_core/src/journal.rs.
