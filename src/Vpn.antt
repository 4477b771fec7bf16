-- ===== src/Vpn.antt =====
-- The peer-to-peer network of crates/vpn/src/vpn.
pub mod Identity
pub mod Session
pub mod Heartbeat
pub mod Relay
pub mod Dht
pub mod Routing
pub mod Multihop
