-- ===== src/Pool/Sync.antt =====
-- Agreement of the topic table of a pool with the topics of its connections (chat/processor/pool.rs).
pub mod Tables
pub mod Subscribing
pub mod Publishing
pub mod Promoting
pub mod Associating
pub mod Leaving
