-- ===== src/Pool/Ready.antt =====
-- Readiness of a pool, by groups of the operations of chat/processor/pool.rs.
pub mod Topics
pub mod Sessions
pub mod Lattices
pub mod Updates
pub mod Users
pub mod Expiring
pub mod Cleanup
pub mod Actions
pub mod Lost
pub mod Processor
