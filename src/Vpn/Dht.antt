-- ===== src/Vpn/Dht.antt =====
-- The distributed hash table of crates/vpn/src/vpn/dht.rs.
pub mod Bucket
pub mod Distance
pub mod Manager
pub mod NodeList
pub mod Messages
pub mod Placement
