-- ===== src/Domain.antt =====
-- crates/domain: the pure rules.
pub mod Time
pub mod Node
pub mod Membership
pub mod Weighting
pub mod Ballots
pub mod Jury
pub mod Server
pub mod Governance
pub mod Social
pub mod Names
pub mod Chat
