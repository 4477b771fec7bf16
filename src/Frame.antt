-- ===== src/Frame.antt =====
-- crates/protocol/src/frame.rs: the packet header of the UDP protocol.
-- `Wire` is what the header takes from the crates `bytes` and `bitflags`, `Types` the enumerations
-- and constants, `Header` the header with its encoder and decoder, `Cut` and `Laws` their lemmas, `RoundTrip` what they promise.
pub mod Wire
pub mod Types
pub mod Header
pub mod Laws
pub mod Cut
pub mod RoundTrip
