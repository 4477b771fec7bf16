-- ===== src/Registry.antt =====
-- The registry of crates/vpn/src/registry: the election of the node that runs it.
pub mod Messages
pub mod Manager
pub mod Handlers
pub mod Election
