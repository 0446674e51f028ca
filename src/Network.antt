-- ===== src/Network.antt =====
-- config/networks.rs and authorizers/source_ip.rs: which client addresses are let in.
pub mod Subnets
pub mod SourceIp
pub mod Laws
pub mod Decision
