-- ===== src/App.antt =====
-- crates/app: the use-cases, each a function of the store's state and of what the clock reads.
pub mod Results
pub mod Governance
pub mod Franchise
pub mod Paths
pub mod Social
pub mod Actions
pub mod Chat
pub mod Reactions
pub mod Media
pub mod Emojis
