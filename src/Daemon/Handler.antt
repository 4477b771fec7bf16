-- ===== src/Daemon/Handler.antt =====
-- `handle_packet_inner` and the timed part of the main loop of crates/daemon/src/main.rs. One packet
-- reads the clock once, in nanoseconds. The control handler is outside: it gets the plaintext.
pub mod Steps
pub mod Limit
pub mod Authority
pub mod Isolation
pub mod Accepts
