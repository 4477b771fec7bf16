-- ===== src/Vpn/Heartbeat.antt =====
-- crates/vpn/src/vpn/heartbeat.rs: the messages and the states of the nodes. Times are in nanoseconds,
-- `timestamp` is in seconds; what the callbacks are told is a list of events.
pub mod Codec
pub mod Detection
use mathlib.Core.Option
use lan_link.Prelude.{
  ℕ, ◌+◌, ◌-◌, ◌*◌, ◌%◌, List, [], ◌∷◌, ◌++◌, length, take, drop, Bool, true, false, not, ◌&&◌,
  Option, none, some, ltb, leb, ◌==◌, if◌then◌else◌,
}
use lan_link.Prelude.Words.{wrapping_add_u32, u64_mod}
use lan_link.Prelude.Bytes.{be_bytes, from_be}
use lan_link.Prelude.Assoc
use lan_link.Vpn.Identity.{NodeId, node_eq}

pub data HeartbeatMsgType : Type 0 where
  request response : HeartbeatMsgType

unfoldable pub from_u8 : ℕ → Option HeartbeatMsgType
from_u8 b =
    if b == 1
    then some HeartbeatMsgType.request
    else if b == 2
    then some HeartbeatMsgType.response
    else none

unfoldable pub to_u8 : HeartbeatMsgType → ℕ
to_u8 HeartbeatMsgType.request = 1
to_u8 HeartbeatMsgType.response = 2

pub record HeartbeatMessage : Type 0 where
  pub msg_type : HeartbeatMsgType
  pub sender_id : NodeId
  pub timestamp : ℕ
  pub sequence : ℕ

unfoldable pub to_bytes : HeartbeatMessage → List ℕ
to_bytes m = to_u8 m.msg_type ∷ (m.sender_id ++ (be_bytes 8 m.timestamp ++ be_bytes 8 m.sequence))

-- `data[0]` of data that is not empty.
abbrev pub head : List ℕ → ℕ
head [] = 0
head (b ∷ bs) = b

unfoldable pub from_bytes : List ℕ → Option HeartbeatMessage
from_bytes bytes =
    let message : HeartbeatMsgType → HeartbeatMessage = λ msg_type. record {
      msg_type = msg_type;
      sender_id = take 32 (drop 1 bytes);
      timestamp = from_be (take 8 (drop 33 bytes));
      sequence = from_be (take 8 (drop 41 bytes));
    } in
    if ltb (length bytes) 49 then none else Option.map message (from_u8 (head bytes))

pub record NodeHeartbeatState : Type 0 where
  pub node_id : NodeId
  pub last_heartbeat : ℕ
  pub missed_count : ℕ
  pub is_online : Bool
  pub send_sequence : ℕ
  pub recv_sequence : ℕ

unfoldable pub new_state : NodeId → ℕ → NodeHeartbeatState
new_state node_id now = record {
  node_id = node_id;
  last_heartbeat = now;
  missed_count = 0;
  is_online = true;
  send_sequence = 0;
  recv_sequence = 0;
}

abbrev pub should_be_offline : NodeHeartbeatState → ℕ → Bool
should_be_offline s threshold = leb threshold s.missed_count

-- `HeartbeatCallback`.
pub data Event : Type 0 where
  node_online node_offline : NodeId → Event
  heartbeat_sent heartbeat_received : NodeId → ℕ → Event

abbrev pub Nodes : Type 0
Nodes = List (NodeId × NodeHeartbeatState)

pub record HeartbeatManager : Type 0 where
  pub local_id : NodeId
  pub interval : ℕ
  pub offline_threshold : ℕ
  pub nodes : Nodes

unfoldable pub add_node : HeartbeatManager → NodeId → ℕ → HeartbeatManager
add_node m node_id now = elim (Assoc.lookup node_eq node_id m.nodes) [
  | some _ ↦ m
  | none ↦ record m { nodes = Assoc.insert node_eq node_id (new_state node_id now) m.nodes }
]

unfoldable pub remove_node : HeartbeatManager → NodeId → HeartbeatManager
remove_node m node_id = record m { nodes = Assoc.remove node_eq node_id m.nodes }

unfoldable pub get_node_state : HeartbeatManager → NodeId → Option NodeHeartbeatState
get_node_state m node_id = Assoc.lookup node_eq node_id m.nodes

-- The nodes whose state is online, or is not.
unfoldable pub nodes_with : Bool → Nodes → List NodeId
nodes_with online [] = []
nodes_with true ((_, s) ∷ nodes) =
    let rest = nodes_with true nodes in if s.is_online then s.node_id ∷ rest else rest
nodes_with false ((_, s) ∷ nodes) =
    let rest = nodes_with false nodes in if s.is_online then rest else s.node_id ∷ rest

unfoldable pub online_nodes : HeartbeatManager → List NodeId
online_nodes m = nodes_with true m.nodes

unfoldable pub offline_nodes : HeartbeatManager → List NodeId
offline_nodes m = nodes_with false m.nodes

-- What the thread does for one node whose answer may be missing: the state, and the event.
unfoldable pub check_state : ℕ → ℕ → ℕ → NodeHeartbeatState → NodeHeartbeatState × List Event
check_state interval threshold now s =
    let missed : NodeHeartbeatState = record s {
      missed_count = wrapping_add_u32 s.missed_count 1;
    } in
    if s.is_online && ltb (interval * 2) (now - s.last_heartbeat)
    then (if should_be_offline missed threshold
        then (record missed { is_online = false }, node_offline s.node_id ∷ [])
        else (missed, []))
    else (s, [])

unfoldable pub check_all : ℕ → ℕ → ℕ → Nodes → Nodes × List Event
check_all interval threshold now [] = ([], [])
check_all interval threshold now ((id, s) ∷ nodes) =
    let (s', events) = check_state interval threshold now s in
    let (nodes', later) = check_all interval threshold now nodes in
    ((id, s') ∷ nodes', events ++ later)

abbrev pub keys : Nodes → List NodeId
keys [] = []
keys ((id, _) ∷ nodes) = id ∷ keys nodes

abbrev pub with_sequence : ℕ → NodeHeartbeatState → NodeHeartbeatState
with_sequence sequence s = record s { send_sequence = sequence }

module _ (send_fn : NodeId → HeartbeatMessage → Bool) where
  unfoldable pub send_all : NodeId → ℕ → ℕ → List NodeId → Nodes → Nodes × List Event
  send_all local_id sequence timestamp [] nodes = (nodes, [])
  send_all local_id sequence timestamp (id ∷ ids) nodes =
      let msg : HeartbeatMessage = record {
        msg_type = HeartbeatMsgType.request;
        sender_id = local_id;
        timestamp = timestamp;
        sequence = sequence;
      } in
      let sent = Assoc.modify node_eq id (with_sequence sequence) nodes in
      let (nodes', events) =
        send_all local_id sequence timestamp ids (if send_fn id msg then sent else nodes) in
      (nodes', if send_fn id msg then heartbeat_sent id sequence ∷ events else events)

  -- One turn of the loop of the thread that `start` spawns: the manager, the next sequence number,
  -- and the events. No other call comes between its parts.
  unfoldable pub turn : HeartbeatManager → ℕ → ℕ → ℕ → HeartbeatManager × ℕ × List Event
  turn m sequence timestamp now =
      let (sent, events) = send_all m.local_id sequence timestamp (keys m.nodes) m.nodes in
      let (checked, later) = check_all m.interval m.offline_threshold now sent in
      (record m { nodes = checked }, (sequence + 1) % u64_mod, events ++ later)

  unfoldable pub send_response : HeartbeatManager → NodeId → ℕ → ℕ → Bool
  send_response m target sequence timestamp = send_fn target (record {
    msg_type = HeartbeatMsgType.response;
    sender_id = m.local_id;
    timestamp = timestamp;
    sequence = sequence;
  })

abbrev pub heard : ℕ → ℕ → NodeHeartbeatState → NodeHeartbeatState
heard now sequence s = record s {
  last_heartbeat = now;
  missed_count = 0;
  is_online = true;
  recv_sequence = sequence;
}

unfoldable pub handle_heartbeat :
    HeartbeatManager → HeartbeatMessage → ℕ → HeartbeatManager × List Event
handle_heartbeat m msg now =
    let state =
      Option.get_or (Assoc.lookup node_eq msg.sender_id m.nodes) (new_state msg.sender_id now) in
    let received = heartbeat_received msg.sender_id msg.sequence ∷ [] in
    (
      record m {
        nodes = Assoc.insert node_eq msg.sender_id (heard now msg.sequence state) m.nodes;
      },
      if state.is_online then received else node_online msg.sender_id ∷ received,
    )
