-- ===== src/Vpn/Dht/Messages.antt =====
-- The messages of the hash table (crates/vpn/src/vpn/dht.rs).
pub mod Storing
use lan_link.Prelude.{
  ℕ, zero, suc, ◌+◌, ◌%◌, List, [], ◌∷◌, ◌++◌, length, take, drop, Option, none, some, ltb, ◌==◌,
  if◌then◌else◌,
}
use lan_link.Prelude.Words.{u32_mod}
use lan_link.Prelude.Bytes.{be_bytes, from_be}
use lan_link.Vpn.Identity.{NodeId}
use lan_link.Vpn.Relay.{Message, MessageType}
use lan_link.Vpn.Dht.Manager.{
  DhtManager, ValueEntry, touch_node, insert_node, find_node, put_value, get_value_by_hash,
}
use lan_link.Vpn.Dht.NodeList.{encode_node_list, decode_node_list}

pub data DhtMessageType : Type 0 where
  ping pong find_node_ nodes_ put get value_ : DhtMessageType

unfoldable pub from_u8 : ℕ → Option DhtMessageType
from_u8 b =
    if b == 1
    then some DhtMessageType.ping
    else if b == 2
    then some DhtMessageType.pong
    else if b == 3
    then some DhtMessageType.find_node_
    else if b == 4
    then some DhtMessageType.nodes_
    else if b == 5
    then some DhtMessageType.put
    else if b == 6
    then some DhtMessageType.get
    else if b == 7
    then some DhtMessageType.value_
    else none

unfoldable pub to_u8 : DhtMessageType → ℕ
to_u8 DhtMessageType.ping = 1
to_u8 DhtMessageType.pong = 2
to_u8 DhtMessageType.find_node_ = 3
to_u8 DhtMessageType.nodes_ = 4
to_u8 DhtMessageType.put = 5
to_u8 DhtMessageType.get = 6
to_u8 DhtMessageType.value_ = 7

unfoldable pub create_dht_message : DhtMessageType → List ℕ → Message
unfolding to_u8
create_dht_message type payload = record {
  msg_type = MessageType.dht;
  payload = to_u8 type ∷ payload;
}

-- The nodes of a list are inserted one after the other.
unfoldable pub insert_all : DhtManager → List (NodeId × List ℕ) → ℕ → DhtManager
insert_all m [] now = m
insert_all m ((node_id, addr) ∷ nodes) now = insert_all (insert_node m node_id addr now).0 nodes now

module _ (sha256 : List ℕ → List ℕ) where
  -- `secs` is the time of the system clock.
  unfoldable pub handle_put : DhtManager → List ℕ → ℕ → DhtManager
  unfolding put_value
  handle_put m bytes secs =
      let key_len = from_be (take 2 bytes) in
      let value_len = from_be (take 4 (drop (2 + key_len) bytes)) in
      let value = take value_len (drop (2 + key_len + 4) bytes) in
      let ttl = from_be (take 8 (drop (2 + key_len + 4 + value_len) bytes)) in
      if ltb (length bytes) 2
      then m
      else if ltb (length bytes) (2 + key_len + 4)
      then m
      else if ltb (length bytes) (2 + key_len + 4 + value_len + 8)
      then m
      else (put_value sha256 m (take key_len (drop 2 bytes)) value ttl secs).0

  unfoldable pub on_find_node : DhtManager → List ℕ → List Message
  unfolding create_dht_message encode_node_list find_node
  on_find_node m bytes =
      create_dht_message DhtMessageType.nodes_ (
        if ltb (length bytes) 32
        then encode_node_list []
        else encode_node_list (find_node m (take 32 bytes)))
      ∷ []

  unfoldable pub on_get : DhtManager → List ℕ → ℕ → List Message
  unfolding create_dht_message get_value_by_hash
  on_get m bytes secs =
      let key_hash = take 32 bytes in
      if ltb (length bytes) 32 then [] else elim (get_value_by_hash sha256 m key_hash secs) [
        | none ↦ []
        | some v ↦
            create_dht_message DhtMessageType.value_
              (key_hash ++ (be_bytes 4 (length v.value % u32_mod) ++ v.value))
            ∷ []
      ]

  -- `now` is the time of the monotonic clock, and `secs` that of the system clock.
  unfoldable pub on_type :
      DhtMessageType → DhtManager → NodeId → List ℕ → ℕ → ℕ → DhtManager × List Message
  unfolding touch_node create_dht_message on_find_node decode_node_list insert_all handle_put on_get
  on_type DhtMessageType.ping m sender_id bytes now secs =
      ((touch_node m sender_id now).0, create_dht_message DhtMessageType.pong [] ∷ [])
  on_type DhtMessageType.pong m sender_id bytes now secs = ((touch_node m sender_id now).0, [])
  on_type DhtMessageType.find_node_ m sender_id bytes now secs = (m, on_find_node m bytes)
  on_type DhtMessageType.nodes_ m sender_id bytes now secs =
      (insert_all m (decode_node_list bytes) now, [])
  on_type DhtMessageType.put m sender_id bytes now secs = (handle_put m bytes secs, [])
  on_type DhtMessageType.get m sender_id bytes now secs = (m, on_get m bytes secs)
  on_type DhtMessageType.value_ m sender_id bytes now secs = (m, [])

  unfoldable pub process_message : DhtManager → NodeId → List ℕ → ℕ → ℕ → DhtManager × List Message
  unfolding from_u8 on_type
  process_message m sender_id [] now secs = (m, [])
  process_message m sender_id (b ∷ bytes) now secs = elim (from_u8 b) [
    | none ↦ (m, [])
    | some type ↦ on_type type m sender_id bytes now secs
  ]
