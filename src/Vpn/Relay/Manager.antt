-- ===== src/Vpn/Relay/Manager.antt =====
-- `RelayManager` of crates/vpn/src/vpn/relay.rs: where a message goes. What is handed to
-- `send_message` is the result; the connection is that of `Pool`.

use lan_link.Prelude.{ℕ, ◌≡◌, refl, List, [], Option, none, some}
use lan_link.Prelude.Assoc
use lan_link.Prelude.Result.{Result, ok, err}
use lan_link.Vpn.Identity.{NodeId, node_eq}
use lan_link.Vpn.Relay.{MessageType, RelayError, Message}
use lan_link.Vpn.Relay.Pool.{Address}

pub record RelayManager : Type 0 where
  pub local_id : NodeId
  pub known_nodes : List (NodeId × Address)
  pub relay_table : List (NodeId × Address)

unfoldable pub new : NodeId → RelayManager
new local_id = record { local_id = local_id; known_nodes = []; relay_table = [] }

unfoldable pub register_node : RelayManager → NodeId → Address → RelayManager
register_node m id addr = record m { known_nodes = Assoc.insert node_eq id addr m.known_nodes }

unfoldable pub get_node_addr : RelayManager → NodeId → Option Address
get_node_addr m id = Assoc.lookup node_eq id m.known_nodes

unfoldable pub set_relay : RelayManager → NodeId → Address → RelayManager
set_relay m target next_hop = record m {
  relay_table = Assoc.insert node_eq target next_hop m.relay_table;
}

unfoldable pub send : RelayManager → NodeId → Message → Result RelayError (Address × Message)
send m target msg = elim (get_node_addr m target) [
  | some addr ↦ ok (addr, msg)
  | none ↦ elim (Assoc.lookup node_eq target m.relay_table) [
    | some next_hop ↦ ok (next_hop, record { msg_type = MessageType.relay; payload = target })
    | none ↦ err RelayError.unreachable
  ]
]

unfoldable pub relay : RelayManager → NodeId → List ℕ → Result RelayError (Address × Message)
relay m target payload = elim (get_node_addr m target) [
  | none ↦ err RelayError.unreachable
  | some addr ↦ ok (addr, record { msg_type = MessageType.data_; payload = payload })
]

-- A message to a node that can only be reached over a relay is lost: whatever two messages are sent,
-- the relay is sent the same bytes, those of the target.
pub send-relayed :
    (m : RelayManager) (target : NodeId) (next_hop : Address) (msg other : Message)
    → get_node_addr m target ≡ none
    → Assoc.lookup node_eq target m.relay_table ≡ some next_hop
    → (send m target msg ≡ ok (next_hop, record { msg_type = MessageType.relay; payload = target }))
      × (send m target msg ≡ send m target other)
unfolding send
send-relayed m target next_hop msg other e f = (rw (send, e, f) refl, rw (send, e, f) refl)
