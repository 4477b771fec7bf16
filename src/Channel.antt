-- ===== src/Channel.antt =====
-- Control messages between crates/ctl/src/main.rs and crates/daemon/src/main.rs.
pub mod Codec
pub mod Client
pub mod Server
pub mod Delivery
pub mod Replies
