-- ===== src/Tests.antt =====
-- Tests on concrete inputs, and values of the interfaces.
mod ReferenceWire
mod ReferenceCipher
mod Frames
mod Senders
mod Receivers
mod Daemons
mod Channels
mod Sessions
mod Heartbeats
mod Chunks
mod Relays
mod Dhts
mod Routes
mod Elections
mod DhtTables
mod Syncs
mod Stored
mod Hops
