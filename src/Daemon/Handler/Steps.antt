-- ===== src/Daemon/Handler/Steps.antt =====
-- The daemon's state and its two steps: a UDP packet, and the tick of the main loop
-- (crates/daemon/src/main.rs). `decode` is that of the header, and the cipher that of `Crypto`.

use lan_link.Prelude.{
  ℕ, ◌-◌, List, [], ◌∷◌, length, take, drop, Bool, false, not, ◌&&◌, Option, none, some, ltb, leb,
  ◌==◌, if◌then◌else◌, ℕ_discrete,
}
use lan_link.Prelude.Assoc
use lan_link.Frame.Wire.{Wire}
use lan_link.Frame.Types.{PacketType, header_size, max_packet}
use lan_link.Frame.Header.{PacketHeader, decode}
use lan_link.Crypto.{Cipher}
use lan_link.Daemon.Limiter.{RateLimiter, check_syn, check_cmd, gc}
use lan_link.Prelude.Words.{secs}
use lan_link.Daemon.Packets
use lan_link.Daemon.Packets.{
  SocketAddr, addr_eq, ConnState, is_established, Connection, build_syn_ack, build_heartbeat,
}

abbrev pub max_connections : ℕ
max_connections = 100

abbrev pub timeout : ℕ
timeout = secs 30

pub record Daemon : Type 0 where
  pub connections : List (ℕ × Connection)
  pub limiter : RateLimiter

-- A datagram that the daemon sends, or a plaintext that it hands to the control handler.
pub data Output : Type 0 where
  sent : List ℕ → SocketAddr → Output
  control : ℕ → SocketAddr → List ℕ → Output

abbrev pub lookup : Daemon → ℕ → Option Connection
lookup d id = Assoc.lookup ℕ_discrete id d.connections

abbrev pub touched : ℕ → Connection → Connection
touched now c = record c { last_activity = now }

abbrev pub opened : ℕ → Connection → Connection
opened now c = record c { state = ConnState.established; last_activity = now }

unfoldable pub on_syn_ack : Daemon → ℕ → ℕ → Daemon
on_syn_ack d conn_id now = record d {
  connections = Assoc.modify ℕ_discrete conn_id (opened now) d.connections;
}

-- A control command behind its rate limit.
unfoldable pub on_control : Daemon → ℕ → SocketAddr → ℕ → List ℕ → Daemon × List Output
on_control d conn_id peer now plaintext =
    let (limiter, allowed) = check_cmd d.limiter peer.ip now in
    let d' : Daemon = record d { limiter = limiter } in
    if not allowed then (d', []) else elim (lookup d conn_id) [
      | none ↦ (d', [])
      | some conn ↦ (d', control conn_id peer plaintext ∷ [])
    ]

-- The two checks of the source address, by the state of the connection.
unfoldable pub admits : Daemon → ℕ → SocketAddr → Bool
admits d conn_id peer = elim (lookup d conn_id) [
  | none ↦ false
  | some conn ↦ is_established conn.state && addr_eq conn.peer peer
]

unfoldable pub on_rst : Daemon → ℕ → Daemon
on_rst d conn_id = record d { connections = Assoc.remove ℕ_discrete conn_id d.connections }

unfoldable pub retain_alive : ℕ → List (ℕ × Connection) → List (ℕ × Connection)
retain_alive now [] = []
retain_alive now ((id, conn) ∷ conns) =
    if ltb (now - conn.last_activity) timeout
    then (id, conn) ∷ retain_alive now conns
    else retain_alive now conns

module _ (w : Wire) (cipher : Cipher) (psk : List ℕ) where
  unfoldable pub on_syn : Daemon → ℕ → SocketAddr → ℕ → Daemon × List Output
  on_syn d conn_id peer now =
      let (limiter, allowed) = check_syn d.limiter peer.ip now in
      let d' : Daemon = record d { limiter = limiter } in
      let conn : Connection = record (Packets.new conn_id peer now) {
        state = ConnState.established;
      } in
      let reply = sent (build_syn_ack w conn_id) peer ∷ [] in
      if not allowed
      then (d', [])
      else if leb max_connections (length d.connections)
      then (d', [])
      else elim (lookup d conn_id) [
        | some existing ↦ if not (addr_eq existing.peer peer) then (d', []) else (d', reply)
        | none ↦
            (record d' { connections = Assoc.insert ℕ_discrete conn_id conn d.connections }, reply)
      ]

  unfoldable pub on_data :
      Daemon → PacketHeader w.Flags → List ℕ → SocketAddr → ℕ → Daemon × List Output
  on_data d header bytes peer now =
      if not (admits d header.conn_id peer)
      then (d, [])
      else if leb (length bytes) header_size
      then (d, [])
      else elim (cipher.decrypt psk header.nonce (drop header_size bytes)) [
        | none ↦ (d, [])
        | some plaintext ↦
            let d' : Daemon = record d {
              connections = Assoc.modify ℕ_discrete header.conn_id (touched now) d.connections;
            } in
            let controlled = on_control d' header.conn_id peer now plaintext in
            if header.stream_id == 0 then controlled else (d', [])
      ]

  unfoldable pub on_heartbeat : Daemon → ℕ → SocketAddr → ℕ → Daemon × List Output
  on_heartbeat d conn_id peer now = elim (lookup d conn_id) [
    | none ↦ (d, [])
    | some conn ↦
        if not (is_established conn.state)
        then (d, [])
        else if not (addr_eq conn.peer peer)
        then (d, [])
        else (
          record d { connections = Assoc.modify ℕ_discrete conn_id (touched now) d.connections },
          sent (build_heartbeat w conn_id) conn.peer ∷ [],
        )
  ]

  unfoldable pub dispatch :
      PacketType → Daemon → PacketHeader w.Flags → List ℕ → SocketAddr → ℕ → Daemon × List Output
  dispatch PacketType.syn d header bytes peer now = on_syn d header.conn_id peer now
  dispatch PacketType.syn_ack d header bytes peer now = (on_syn_ack d header.conn_id now, [])
  dispatch PacketType.ack d header bytes peer now = (d, [])
  dispatch PacketType.data_ d header bytes peer now = on_data d header bytes peer now
  dispatch PacketType.rst d header bytes peer now = (on_rst d header.conn_id, [])
  dispatch PacketType.heartbeat d header bytes peer now = on_heartbeat d header.conn_id peer now

  -- What follows the decoding of the header, which may have failed.
  unfoldable pub handle_header :
      Option (PacketHeader w.Flags) → Daemon → List ℕ → SocketAddr → ℕ → Daemon × List Output
  handle_header none d bytes peer now = (d, [])
  handle_header (some header) d bytes peer now = dispatch header.pkt_type d header bytes peer now

  unfoldable pub handle_packet_inner : Daemon → List ℕ → SocketAddr → ℕ → Daemon × List Output
  handle_packet_inner d bytes peer now = handle_header (decode w bytes).0 d bytes peer now

  -- A datagram as the main loop receives it, in a buffer of `MAX_PACKET` bytes.
  unfoldable pub receive : Daemon → List ℕ → SocketAddr → ℕ → Daemon × List Output
  receive d datagram peer now = handle_packet_inner d (take max_packet datagram) peer now

  -- The heartbeats that a tick sends.
  unfoldable pub heartbeats : List (ℕ × Connection) → List Output
  heartbeats [] = []
  heartbeats ((id, conn) ∷ conns) =
      if is_established conn.state
      then sent (build_heartbeat w conn.id) conn.peer ∷ heartbeats conns
      else heartbeats conns

  -- What the main loop does once every heartbeat interval.
  unfoldable pub tick : Daemon → ℕ → Daemon × List Output
  tick d now = (
    record { connections = retain_alive now d.connections; limiter = gc d.limiter now },
    heartbeats d.connections,
  )
