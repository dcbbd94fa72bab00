-- ===== src/Examples.antt =====
-- Concrete runs at which the theorems apply, and the tests.
pub mod Domain
pub mod Services
pub mod Social
pub mod Federation
pub mod Replication
pub mod Rehoming
pub mod Emojis
pub mod Commands
pub mod Chat
