-- ===== src/Pool.antt =====
-- chat/processor/pool.rs: one session pool, its operations and what they keep.
pub mod Types
pub mod Output
pub mod Topics
pub mod Attach
pub mod Connections
pub mod Activity
pub mod Lattices
pub mod Users
pub mod Updates
pub mod Actions
pub mod Expiry
pub mod Frames
pub mod Keys
pub mod Sync
pub mod Ready
