-- ===== src/Std.antt =====
-- The collections of Rust's standard library that the program uses.
pub mod HashMap
pub mod HashSet
