-- ===== src/Vpn/Identity.antt =====
-- `NodeID` of crates/vpn/src/vpn/identity.rs: its 32 bytes.
use lan_link.Prelude.{ℕ, List}
use lan_link.Prelude.Bytes.{bytes_eq}

abbrev pub NodeId : Type 0
NodeId = List ℕ

-- The equality that `#[derive(PartialEq)]` decides.
abbrev pub node_eq : Discrete NodeId
node_eq = bytes_eq
