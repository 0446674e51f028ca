-- ===== src/Lattice.antt =====
-- chat/processor/lattice.rs: the CRDT values, `crdt_update`, `Values` and `Lattice`.
pub mod Crdt
pub mod State
pub mod Merge
pub mod Laws
pub mod Rooms
pub mod Updates
pub mod Expiry
pub mod Sessions
