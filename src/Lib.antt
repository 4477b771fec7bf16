-- ===== src/Lib.antt =====
-- lan-link: a remote control protocol over UDP and TCP (crates/protocol, crates/daemon, crates/ctl)
-- and the parts of its peer-to-peer network (crates/vpn).
--
-- Prelude: names and lemmas that all parts share. Numbers are the native ℕ and machine integers keep
-- their wrap-around; a `HashMap` is an association list (Prelude/Assoc), a byte is a number, and an
-- `RwLock` with its owner, where it is asked for twice, is in Prelude/Locks.
-- Frame (crates/protocol/src/frame.rs): the header of a packet. The crates `bytes` and `bitflags`
-- are the record `Wire`; `encode` and `decode` go through its operations as the source does.
-- Reliable (crates/protocol/src/reliable.rs): `ReliableSender` in Reliable/Sender and
-- `ReliableReceiver` in Reliable/Receiver, each a record with one function per method, which returns
-- the new state; Reliable/Acking puts them together.
-- Crypto, Mux (crates/protocol/src/crypto.rs, stream.rs): the nonces, and the streams of a connection.
-- The crate `chacha20poly1305` is the record `Cipher`.
-- Daemon (crates/daemon/src/connection.rs, main.rs): the rate limiter (Daemon/Limiter), the packets
-- (Daemon/Packets), and the handler of a UDP packet with the timed part of the main loop
-- (Daemon/Handler). A step takes the time that the source reads from the clock, in nanoseconds, and
-- returns the new state with what it sends and what it hands to the control handler. The handler of
-- TCP connections (`handle_packet_tcp`), which keeps a table of its own, is not modelled.
-- Channel (crates/ctl/src/main.rs, crates/daemon/src/main.rs): control messages from the client to
-- the daemon's handler and back. The crate `bincode` is the record `Codec`.
-- Registry (crates/vpn/src/registry/election.rs): `ElectionManager`, its messages in
-- Registry/Messages, its state in Registry/Manager, what it does with a message in Registry/Handlers,
-- and the messages as bytes in Registry/Election. The crate `serde_json` is the record `Json`.
-- Vpn (crates/vpn/src/vpn): node ids (identity.rs), sessions, their counters and their manager
-- (session.rs in Vpn/Session), heartbeats and the detection of lost nodes (heartbeat.rs in
-- Vpn/Heartbeat), the relay's messages, connection pool and routes (relay.rs in Vpn/Relay), the
-- hash table (dht.rs in Vpn/Dht: a bucket in Vpn/Dht/Bucket, distances in Vpn/Dht/Distance, the table
-- and its values in Vpn/Dht/Manager, lists of nodes as bytes in Vpn/Dht/NodeList, and the answers to
-- messages in Vpn/Dht/Messages), the route table (crates/vpn/src/router.rs in
-- Vpn/Routing), and routes over several hops (multihop.rs in Vpn/Multihop). A lock is held for a whole
-- method, so a method is one step.
-- Storage (crates/vpn/src/storage): chunks of a file (chunk.rs in Storage/Chunk), diffs (diff.rs in
-- Storage/Diff), incremental uploads and downloads (incremental.rs in Storage/Incremental), where the
-- other node is the record `Peer`, versions (version.rs in Storage/Version, their
-- times and ids in Storage/Timestamps), metadata and their exchange (metadata.rs in
-- Storage/Metadata), and unreferenced blocks (gc.rs in Storage/Garbage).
-- Tests: values of these interfaces, and runs on concrete inputs.
--
-- Every loop of the source is recursion on the list that it goes through, but for the one that reads
-- messages from a connection: its fuel is the length of the stream, and each message takes from it.
-- The digits of a number are made with fuel 20, which is enough for an integer of 64 bits. A lock is
-- given back at the end of a method and its panics are left out, but for the lock of `dirty` in
-- Storage/Version: that is part of the state, and what `RwLock` does when a thread asks for a lock
-- that it holds, which its documentation leaves open, is a parameter there.
-- Not modelled: sockets, tasks and the other locks, logging, the execution of commands, the
-- terminal, the files in which stores are kept, and the parts of crates/vpn that no module names:
-- the registry server (center.rs), paths side by side (multipath.rs), self-healing (selfheal.rs),
-- the handshake, bootstrap and hole punching, downloads from several nodes, encrypted storage,
-- statistics and commands.
pub mod Channel
pub mod Crypto
pub mod Daemon
pub mod Frame
pub mod Mux
pub mod Prelude
pub mod Registry
pub mod Reliable
pub mod Storage
pub mod Tests
pub mod Vpn
