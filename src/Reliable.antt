-- ===== src/Reliable.antt =====
-- crates/protocol/src/reliable.rs: the selective-repeat layer. `Sender` and `Receiver` are the two
-- ends; their laws stand in the modules below each.
pub mod Sender
pub mod Receiver
pub mod Acking
