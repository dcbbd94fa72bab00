-- ===== src/Federation.antt =====
-- crates/federation and crates/adapter-federation: who may write a replicated row, and when.
pub mod Registry
pub mod Events
pub mod Replay
pub mod Feed
pub mod Replicator
pub mod Rehome
pub mod Commands
