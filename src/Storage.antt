-- ===== src/Storage.antt =====
-- The distributed storage of crates/vpn/src/storage.
pub mod Chunk
pub mod Diff
pub mod Incremental
pub mod Timestamps
pub mod Version
pub mod Metadata
pub mod Garbage
