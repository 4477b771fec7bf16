-- ===== src/Tests/Relays.antt =====
-- The relay's messages, pools and routes on concrete inputs.
use mathlib.Core.Option
use lan_link.Prelude.{ℕ, ◌≡◌, refl, replicate, Bool, true, List, [], ◌∷◌, some, ℕ_discrete}
use lan_link.Prelude.Bytes.{le_bytes, from_le, both_eq, bytes_eq}
use lan_link.Prelude.Assoc.{lookup, insert}
use lan_link.Vpn.Identity.{NodeId}
use lan_link.Vpn.Relay.{
  MessageType, Message, to_u8, to_bytes, from_u8, read_body, read_message, read_all,
  handle_connection, with_type,
}
use lan_link.Vpn.Relay.Framing.{written}
use lan_link.Vpn.Relay.Pool.{
  Address, new, take_idle, give_back, open_connection, get_connection, return_connection,
  retain_used, retain_pools, cleanup_idle, clear,
}
use lan_link.Vpn.Relay.Pool.Bound.{Call, gets, returns, step, run}
use lan_link.Vpn.Relay.Manager.{RelayManager, get_node_addr, send}

program : Unit {0}
unfolding lookup insert le_bytes both_eq bytes_eq to_u8 to_bytes from_u8 read_body read_message
    read_all handle_connection with_type written new take_idle give_back open_connection
    get_connection return_connection retain_used retain_pools cleanup_idle clear step run
    get_node_addr send ℕ_discrete from_le Option.bind
program = tt

abbrev hello : Message
hello = record { msg_type = MessageType.data_; payload = 104 ∷ 105 ∷ [] }

abbrev messages : List Message
messages =
    record { msg_type = MessageType.data_; payload = 1 ∷ 2 ∷ [] }
    ∷ record { msg_type = MessageType.relay; payload = [] }
    ∷ []

-- The first message is cut off.
cut_off : handle_connection (0 ∷ 0 ∷ 0 ∷ 9 ∷ 2 ∷ 1 ∷ []) ≡ []
unfolding program
cut_off = refl

abbrev addr : Address
addr = 49 ∷ 58 ∷ []

abbrev healthy : ℕ → Bool
healthy _ = true

-- With room for one connection, the second call finds no connection and the third the returned one.
abbrev calls : List Call
calls =
    gets healthy addr 1 (some 7) true
    ∷ gets healthy addr 2 (some 8) true
    ∷ returns healthy addr 3
    ∷ gets healthy addr 4 (some 9) true
    ∷ []

pool_after :
    (run (new 1) calls).connections
    ≡ (addr, record { stream = 7; last_used = 4; in_use = true } ∷ []) ∷ []
unfolding program
pool_after = refl

abbrev node : NodeId
node = replicate 32 1

abbrev manager : RelayManager
manager = record { local_id = replicate 32 2; known_nodes = []; relay_table = (node, addr) ∷ [] }

abbrev bye : Message
bye = record { msg_type = MessageType.data_; payload = 98 ∷ 121 ∷ 101 ∷ [] }
