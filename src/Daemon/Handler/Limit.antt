-- ===== src/Daemon/Handler/Limit.antt =====
-- The bound of the connection table of crates/daemon/src/main.rs, over any packets and ticks.

use lan_link.Prelude.{ℕ, ◌≤◌, ◌≡◌, List, [], ◌∷◌, length, Option, none, some, ℕ_discrete, arith}
use lan_link.Prelude.Assoc.{length-insert_le, length-remove_le, length-modify}
use lan_link.Frame.Wire.{Wire}
use lan_link.Frame.Types.{PacketType}
use lan_link.Frame.Header.{PacketHeader, decode}
use lan_link.Crypto.{Cipher}
use lan_link.Daemon.Limiter.{check_syn, check_cmd}
use lan_link.Daemon.Limiter
use lan_link.Daemon.Packets
use lan_link.Daemon.Packets.{SocketAddr, ConnState, Connection}
use lan_link.Daemon.Handler.Steps.{
  Daemon, on_syn, on_syn_ack, on_control, on_data, on_heartbeat, on_rst, dispatch, handle_header,
  handle_packet_inner, retain_alive, tick, touched, opened,
}

-- The state in which `main` starts.
unfoldable pub start : Daemon
start = record { connections = []; limiter = Limiter.new }

pub data Event : Type 0 where
  packet : List ℕ → SocketAddr → ℕ → Event
  elapsed : ℕ → Event

abbrev pub size : Daemon → ℕ
size d = length d.connections

length-retain_alive :
    (now : ℕ) (conns : List (ℕ × Connection)) → length (retain_alive now conns) ≤ length conns
unfolding retain_alive
length-retain_alive now [] = omega arith
length-retain_alive now ((id, conn) ∷ conns) = ground (arith, length-retain_alive now conns)

module _ (w : Wire) (cipher : Cipher) (psk : List ℕ) where
  unfoldable pub step : Daemon → Event → Daemon
  step d (packet bytes peer now) = (handle_packet_inner w cipher psk d bytes peer now).0
  step d (elapsed now) = (tick w cipher psk d now).0

  unfoldable pub run : Daemon → List Event → Daemon
  run d [] = d
  run d (event ∷ events) = run (step d event) events

  size-on_syn :
      (d : Daemon) (id : ℕ) (peer : SocketAddr) (now : ℕ)
      → size d ≤ 100
      → size (on_syn w cipher psk d id peer now).0 ≤ 100
  unfolding on_syn
  size-on_syn d id peer now h = ground (
    arith,
    length-insert_le ℕ_discrete id
        (record (Packets.new id peer now) { state = ConnState.established }) d.connections,
  )

  size-on_data :
      (d : Daemon) (h : PacketHeader w.Flags) (bytes : List ℕ) (peer : SocketAddr) (now : ℕ)
      → size (on_data w cipher psk d h bytes peer now).0 ≡ size d
  unfolding on_data on_control
  size-on_data d h bytes peer now =
      ground (arith, length-modify ℕ_discrete h.conn_id (touched now) d.connections)

  size-on_heartbeat :
      (d : Daemon) (id : ℕ) (peer : SocketAddr) (now : ℕ)
      → size (on_heartbeat w cipher psk d id peer now).0 ≡ size d
  unfolding on_heartbeat
  size-on_heartbeat d id peer now =
      ground (arith, length-modify ℕ_discrete id (touched now) d.connections)

  size-dispatch :
      (kind : PacketType) (d : Daemon) (h : PacketHeader w.Flags) (bytes : List ℕ)
      (peer : SocketAddr) (now : ℕ)
      → size d ≤ 100
      → size (dispatch w cipher psk kind d h bytes peer now).0 ≤ 100
  unfolding dispatch on_syn_ack on_rst
  size-dispatch PacketType.syn d h bytes peer now b = size-on_syn d h.conn_id peer now b
  size-dispatch PacketType.syn_ack d h bytes peer now b =
      omega (arith, length-modify ℕ_discrete h.conn_id (opened now) d.connections)
  size-dispatch PacketType.ack d h bytes peer now b = b
  size-dispatch PacketType.data_ d h bytes peer now b =
      omega (arith, size-on_data d h bytes peer now)
  size-dispatch PacketType.rst d h bytes peer now b =
      omega (arith, length-remove_le ℕ_discrete h.conn_id d.connections)
  size-dispatch PacketType.heartbeat d h bytes peer now b =
      omega (arith, size-on_heartbeat d h.conn_id peer now)

  size-handle_header :
      (header : Option (PacketHeader w.Flags)) (d : Daemon) (bytes : List ℕ) (peer : SocketAddr)
      (now : ℕ)
      → size d ≤ 100
      → size (handle_header w cipher psk header d bytes peer now).0 ≤ 100
  unfolding handle_header
  size-handle_header none d bytes peer now b = b
  size-handle_header (some h) d bytes peer now b = size-dispatch h.pkt_type d h bytes peer now b

  size-step : (d : Daemon) (event : Event) → size d ≤ 100 → size (step d event) ≤ 100
  unfolding step handle_packet_inner tick
  size-step d (packet bytes peer now) b = size-handle_header (decode w bytes).0 d bytes peer now b
  size-step d (elapsed now) b = omega (arith, length-retain_alive now d.connections)

  size-run : (d : Daemon) (events : List Event) → size d ≤ 100 → size (run d events) ≤ 100
  unfolding run
  size-run d [] b = b
  size-run d (event ∷ events) b = size-run (step d event) events (size-step d event b)

  -- After any sequence of UDP packets, of any bytes and from any addresses, and of ticks of the main
  -- loop, at any times, the table of the UDP connections has at most 100 of them.
  pub max_connections_held : (events : List Event) → length (run start events).connections ≤ 100
  unfolding start
  max_connections_held events = size-run start events (omega arith)
