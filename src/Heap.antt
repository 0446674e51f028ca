-- ===== src/Heap.antt =====
-- chat/processor/heap.rs: a binary heap whose items can be removed by their slots, and the map with
-- deadlines that is built on it.
pub mod Slab
pub mod Items
pub mod Queue
pub mod Order
pub mod Places
pub mod Sifting
pub mod Sinking
pub mod Contract
pub mod Cutting
pub mod Removal
pub mod Map
