-- ===== src/Tests/Daemons.antt =====
-- The daemon and the control channel on concrete inputs.

use lan_link.Prelude.{
  ℕ, ◌+◌, ◌≤◌, ◌≡◌, ◌≢◌, refl, min, All, List, [], ◌∷◌, length, replicate, none, some, arith,
  ℕ_discrete,
}
use lan_link.Prelude.Assoc.{lookup, insert, remove, modify}
use lan_link.Prelude.Bytes.{le_bytes, from_le}
use lan_link.Frame.Types.{
  PacketType, packet_type_code, packet_type_from_u8, stream_id_from_u16, is_reliable,
}
use lan_link.Frame.Header.{PacketHeader, encode, decode_rest, decode}
use lan_link.Crypto.{make_nonce, make_nonce-injective}
use lan_link.Mux.{new_stream, next_seq, numbers, counted, new_stream_lem}
use lan_link.Mux
use lan_link.Daemon.Limiter.{RateLimiter, consume, check_syn, check_cmd, retain_recent, gc}
use lan_link.Prelude.Words.{secs}
use lan_link.Daemon.Limiter
use lan_link.Daemon.Limiter.Bound.{allowed_for, calls_of, syns_allowed, cmds_allowed, rate_limits}
use lan_link.Daemon.Packets.{
  SocketAddr, ConnState, Connection, build_syn, build_syn_ack, build_heartbeat,
  build_encrypted_data, plain_header, data_header,
}
use lan_link.Daemon.Packets
use lan_link.Daemon.Handler.Steps.{
  Daemon, Output, sent, control, opened, on_syn, on_syn_ack, on_control, admits, on_data,
  on_heartbeat, on_rst, dispatch, handle_header, handle_packet_inner, heartbeats, retain_alive,
  tick,
}
use lan_link.Daemon.Handler.Steps
use lan_link.Daemon.Handler.Limit.{start, packet, elapsed, step, run, max_connections_held}
use lan_link.Daemon.Handler.Authority.{Justified, outputs-Justified}
use lan_link.Daemon.Handler.Isolation.{other_connections_kept, foreign_packet, rst_from_anyone}
use lan_link.Daemon.Handler.Accepts.{IsCommand, replayed}
use lan_link.Tests.ReferenceWire.{wire, get_le, get_byte, retain}
use lan_link.Tests.ReferenceCipher.{open_, cipher, codec}

program : Unit {0}
unfolding lookup insert remove modify le_bytes from_le packet_type_code packet_type_from_u8
    stream_id_from_u16 is_reliable encode decode_rest decode make_nonce new_stream next_seq numbers
    counted Mux.new Limiter.new consume check_syn check_cmd retain_recent gc allowed_for calls_of
    syns_allowed cmds_allowed Packets.new build_syn build_syn_ack build_heartbeat
    build_encrypted_data on_syn on_syn_ack on_control admits on_data on_heartbeat on_rst dispatch
    handle_header handle_packet_inner heartbeats retain_alive tick start step run wire get_le
    get_byte retain open_ cipher codec ℕ_discrete
program = tt

abbrev first : ℕ
first = 1

abbrev second : ℕ
second = 2

make_nonce-injective_example : (first ≡ first) × (first ≡ first)
make_nonce-injective_example =
    make_nonce-injective first first first first (omega arith) (omega arith) (omega arith)
      (omega arith) refl

abbrev input : ℕ
input = 4

-- Six more calls of address 9 and one of address 8 within a minute.
abbrev more_calls : List (ℕ × ℕ)
more_calls = (9, 1) ∷ (9, 2) ∷ (8, 3) ∷ (9, 4) ∷ (9, 5) ∷ (9, secs 50) ∷ (9, secs 60) ∷ []

rate_limits_example :
    (syns_allowed Limiter.new 9 ((9, 0) ∷ more_calls) ≡ min (1 + calls_of 9 more_calls) 5)
    × (cmds_allowed Limiter.new 9 ((9, 0) ∷ more_calls) ≡ min (1 + calls_of 9 more_calls) 30)
unfolding program
rate_limits_example = rate_limits Limiter.new 9 0 more_calls refl refl (omega arith) (ground arith)

abbrev key : List ℕ
key = replicate 32 1

abbrev client : SocketAddr
client = record { ip = 9; port = 1 }

abbrev stranger : SocketAddr
stranger = record { ip = 8; port = 1 }

max_connections_held_example :
    length
      (run wire cipher key start (packet (build_syn wire 5) client 0 ∷ elapsed 3 ∷ [])).connections
    ≤ 100
max_connections_held_example =
    max_connections_held wire cipher key (packet (build_syn wire 5) client 0 ∷ elapsed 3 ∷ [])

abbrev conn : Connection
unfolding program
conn = record (Packets.new 5 client 0) { state = ConnState.established }

-- The daemon after a SYN of the client.
abbrev ready : Daemon
ready = record {
  connections = (5, conn) ∷ [];
  limiter = record { syn_counts = (9, (0, 1)) ∷ []; cmd_counts = [] };
}

after_syn :
    handle_packet_inner wire cipher key start (build_syn wire 5) client 0
    ≡ (ready, sent (build_syn_ack wire 5) client ∷ [])
unfolding program
after_syn = refl

abbrev command : List ℕ
command =
    build_encrypted_data wire 5 0 1 (wire.reliable) (104 ∷ 105 ∷ replicate 16 7) (make_nonce 5 1)

abbrev command_header : PacketHeader wire.Flags
command_header =
    data_header wire 5 0 1 (wire.reliable) (104 ∷ 105 ∷ replicate 16 7) (make_nonce 5 1)

outputs-Justified_example :
    All
      (Justified wire cipher key ready command client 3)
      (handle_packet_inner wire cipher key ready command client 3).1
outputs-Justified_example = outputs-Justified wire cipher key ready command client 3

command_is_handled :
    (handle_packet_inner wire cipher key ready command client 3).1
    ≡ control 5 client (104 ∷ 105 ∷ []) ∷ []
unfolding program
command_is_handled = refl

command_decoded : (decode wire command).0 ≡ some command_header
unfolding program
command_decoded = refl

other_connections_kept_example :
    Steps.lookup (handle_packet_inner wire cipher key ready command client 3).0 6
    ≡ Steps.lookup ready 6
other_connections_kept_example =
    other_connections_kept wire cipher key ready command client 3 6 command_header command_decoded
      (omega arith)

command-IsCommand : IsCommand wire cipher key ready command client 3 command_header (104 ∷ 105 ∷ [])
unfolding program
command-IsCommand = record {
  decoded = refl;
  is_data = refl;
  is_control = refl;
  is_open = record { conn = conn; found = refl; established = refl; same_peer = refl };
  has_payload = omega arith;
  decrypted = refl;
  within_rate = refl;
}

replayed_example :
    ((handle_packet_inner wire cipher key ready command client 3).1
      ≡ control 5 client (104 ∷ 105 ∷ []) ∷ [])
    × ((handle_packet_inner wire cipher key
          (handle_packet_inner wire cipher key ready command client 3).0
          command
          client
          4).1
        ≡ control 5 client (104 ∷ 105 ∷ []) ∷ [])
unfolding program
replayed_example =
    replayed wire cipher key ready command client 3 4 command_header (104 ∷ 105 ∷ [])
      command-IsCommand refl

abbrev rst_header : PacketHeader wire.Flags
rst_header = plain_header wire PacketType.rst 5

abbrev rst_bytes : List ℕ
rst_bytes = encode wire rst_header []

data≢rst : command_header.pkt_type ≢ PacketType.rst
data≢rst e = cc

data≢syn_ack : command_header.pkt_type ≢ PacketType.syn_ack
data≢syn_ack e = cc

data≢syn : command_header.pkt_type ≢ PacketType.syn
data≢syn e = cc

rst_from_anyone_example :
    ((handle_packet_inner wire cipher key
        (handle_packet_inner wire cipher key ready rst_bytes stranger 3).0
        command
        client
        4).1
      ≡ [])
    × (Steps.lookup
          (handle_packet_inner wire cipher key
            (handle_packet_inner wire cipher key ready rst_bytes stranger 3).0
            command
            client
            4).0
          5
        ≡ none)
unfolding program
rst_from_anyone_example =
    rst_from_anyone wire cipher key ready rst_bytes command stranger client 3 4 rst_header
      command_header refl refl refl refl data≢syn

foreign_packet_example :
    ((handle_packet_inner wire cipher key ready command stranger 3).0.connections
      ≡ ready.connections)
    × ((handle_packet_inner wire cipher key ready command stranger 3).1 ≡ [])
unfolding program
foreign_packet_example =
    foreign_packet wire cipher key ready command stranger 3 command_header conn refl refl refl
      data≢rst data≢syn_ack
