-- ===== src/Tests/Channels.antt =====
-- The control channel on concrete inputs.

use lan_link.Prelude.{ℕ, ◌≡◌, refl, List, [], ◌∷◌, ◌++◌, replicate, some, arith}
use lan_link.Prelude.Assoc.{lookup, insert}
use lan_link.Prelude.Bytes.{le_bytes, from_le}
use lan_link.Frame.Types.{packet_type_code, packet_type_from_u8, max_packet}
use lan_link.Frame.Header.{encode, decode_rest, decode}
use lan_link.Crypto.{make_nonce}
use lan_link.Daemon.Limiter.{consume, check_syn, check_cmd}
use lan_link.Daemon.Limiter
use lan_link.Daemon.Packets.{SocketAddr, build_syn_ack, build_encrypted_data}
use lan_link.Daemon.Handler.Steps.{sent, control, receive}
use lan_link.Daemon.Handler.Limit.{start}
use lan_link.Channel.Client.{
  encode_packet, syn_packet, encode_control, tcp_write, recv_control_udp, recv_control_tcp,
}
use lan_link.Channel.Server.{send_control, build_control_packet_tcp}
use lan_link.Channel.Delivery.{command_delivered}
use lan_link.Channel.Replies.{reply_received}
use lan_link.Tests.ReferenceWire.{wire}
use lan_link.Tests.ReferenceCipher.{cipher, codec}

program : Unit {0}
unfolding lookup insert le_bytes from_le packet_type_code packet_type_from_u8 encode decode_rest
    decode make_nonce Limiter.new consume check_syn check_cmd build_encrypted_data start
    encode_packet encode_control send_control build_control_packet_tcp wire cipher codec
program = tt

abbrev key : List ℕ
key = replicate 32 1

abbrev client : SocketAddr
client = record { ip = 9; port = 1 }

abbrev sealed : List ℕ
sealed = 104 ∷ 105 ∷ replicate 16 7

abbrev msg : codec.Msg
unfolding program
msg = 104 ∷ 105 ∷ []

abbrev request : List ℕ
unfolding program
request =
    encode_packet wire 5 lan_link.Frame.Types.PacketType.data_ 0 1 (wire.reliable) sealed
      (make_nonce 5 1)

command_delivered_example :
    ((receive wire cipher key start (syn_packet wire 5) client 0).1
      ≡ sent (build_syn_ack wire 5) client ∷ [])
    × ((receive wire cipher key
          (receive wire cipher key start (syn_packet wire 5) client 0).0
          request
          client
          3).1
        ≡ control 5 client (codec.serialize msg) ∷ [])
unfolding program
command_delivered_example =
    command_delivered wire cipher codec key start 5 1 client 0 3 msg request (omega arith)
      (omega arith) refl (omega arith) refl refl refl (omega arith)

abbrev reply : List ℕ
reply = build_encrypted_data wire 5 0 2 (wire.reliable) sealed (make_nonce 5 2)

reply_received_example :
    (recv_control_udp wire cipher codec key reply ≡ some msg)
    × (build_control_packet_tcp wire cipher codec key 5 0x1_0000_0002 msg ≡ reply)
    × (recv_control_tcp wire cipher codec key (tcp_write reply ++ (1 ∷ [])) ≡ some msg)
unfolding program
reply_received_example =
    reply_received wire cipher codec key 5 0x1_0000_0002 msg reply (1 ∷ []) (omega arith) refl
      (omega arith)
