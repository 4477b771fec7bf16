-- ===== src/Tests/Heartbeats.antt =====
-- Heartbeats on concrete inputs.

use lan_link.Prelude.{replicate, ℕ_discrete}
use lan_link.Prelude.Bytes.{both_eq, bytes_eq}
use lan_link.Prelude.Assoc.{lookup, insert}
use lan_link.Vpn.Identity.{NodeId}
use lan_link.Vpn.Heartbeat.{
  HeartbeatMsgType, HeartbeatMessage, NodeHeartbeatState, new_state, get_node_state, check_state,
  handle_heartbeat,
}
use lan_link.Vpn.Heartbeat.Detection.{check_times}

program : Unit {0}
unfolding lookup insert both_eq bytes_eq new_state check_state check_times get_node_state
    handle_heartbeat ℕ_discrete
program = tt

abbrev node : NodeId
node = replicate 32 1

abbrev message : HeartbeatMessage
message = record {
  msg_type = HeartbeatMsgType.request;
  sender_id = node;
  timestamp = 0x0102030405060708;
  sequence = 9;
}

abbrev state : NodeHeartbeatState
state = new_state node 0
