-- ===== src/Examples.antt =====
-- Runs on concrete inputs: a small world, instances of the interfaces, and what these make.
pub mod Deadlines
pub mod Setting
pub mod Slots
pub mod Heaps
pub mod Decimal
pub mod Ids
pub mod Servers
pub mod Calls
pub mod Lattices
pub mod Pools
pub mod Networks
