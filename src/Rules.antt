-- ===== src/Rules.antt =====
-- The transitions of crates/crownline_core/src/rules.rs.
pub mod Opening
pub mod Conduct
pub mod Recruitment
pub mod Cycles
pub mod Inspection
pub mod Threefold
pub mod Rewards
pub mod Claims
pub mod Development
pub mod Queue
pub mod Safety
pub mod Moves
pub mod Authority
pub mod Moving
pub mod Legality
pub mod Realm
pub mod Settlements
pub mod Choices
pub mod Promotions
pub mod Command
pub mod Events
pub mod Action
pub mod Frame
pub mod Settled
pub mod Discovery
pub mod Offers
pub mod Turn
pub mod Integrity
pub mod Identity
