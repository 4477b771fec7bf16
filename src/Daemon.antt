-- ===== src/Daemon.antt =====
-- crates/daemon/src/main.rs and connection.rs: the daemon's rate limiter, the packets it builds, its
-- connections, and its handler of UDP packets.
pub mod Limiter
pub mod Packets
pub mod Handler
