-- ===== src/Daemon/Handler/Accepts.antt =====
-- What a data packet has to be for the daemon to act on it, and what it then does
-- (crates/daemon/src/main.rs).
use mathlib.Core.Option
use lan_link.Prelude.{
  ℕ, ◌<◌, ◌≡◌, ap, sym, ◌∙◌, List, [], ◌∷◌, length, drop, true, none, some, ℕ_discrete, arith,
}
use lan_link.Prelude.Assoc
use lan_link.Prelude.Assoc.{lookup-insert_self, lookup-modify_self}
use lan_link.Frame.Wire.{Wire}
use lan_link.Frame.Types.{PacketType, header_size}
use lan_link.Frame.Header.{PacketHeader, decode}
use lan_link.Crypto.{Cipher}
use lan_link.Daemon.Limiter.{check_syn, check_cmd}
use lan_link.Daemon.Packets.{
  SocketAddr, addr_eq, ConnState, is_established, Connection, build_syn_ack,
}
use lan_link.Daemon.Packets
use lan_link.Daemon.Handler.Steps.{
  Daemon, sent, control, lookup, on_syn, on_control, admits, on_data, dispatch, handle_header,
  handle_packet_inner, touched,
}

-- The connection that a SYN of a new id opens.
abbrev pub syn_connection : ℕ → SocketAddr → ℕ → Connection
syn_connection id peer now = record (Packets.new id peer now) { state = ConnState.established }

-- An established connection with the peer `peer`.
pub record IsOpen (d : Daemon) (id : ℕ) (peer : SocketAddr) : Type 0 where
  pub conn : Connection
  pub found : lookup d id ≡ some conn
  pub established : is_established conn.state ≡ true
  pub same_peer : addr_eq conn.peer peer ≡ true

-- A data packet of stream 0 from the peer of an established connection, within the rate of its
-- address, that decrypts to `text`.
pub record IsCommand (w : Wire) (cipher : Cipher) (psk : List ℕ) (d : Daemon) (bytes : List ℕ)
    (peer : SocketAddr) (now : ℕ) (header : PacketHeader w.Flags) (text : List ℕ) : Type 0 where
  pub decoded : (decode w bytes).0 ≡ some header
  pub is_data : header.pkt_type ≡ PacketType.data_
  pub is_control : header.stream_id ≡ 0
  pub is_open : IsOpen d header.conn_id peer
  pub has_payload : header_size < length bytes
  pub decrypted : cipher.decrypt psk header.nonce (drop header_size bytes) ≡ some text
  pub within_rate : (check_cmd d.limiter peer.ip now).1 ≡ true

module _ (w : Wire) (cipher : Cipher) (psk : List ℕ) where
  pub on_syn-opens :
      (d : Daemon) (id : ℕ) (peer : SocketAddr) (now : ℕ)
      → lookup d id ≡ none
      → length d.connections < 100
      → (check_syn d.limiter peer.ip now).1 ≡ true
      → on_syn w cipher psk d id peer now ≡ (
        record {
          connections = Assoc.insert ℕ_discrete id (syn_connection id peer now) d.connections;
          limiter = (check_syn d.limiter peer.ip now).0;
        },
        sent (build_syn_ack w id) peer ∷ [],
      )
  unfolding on_syn
  on_syn-opens d id peer now e l a = ground arith

  on_control-accepts :
      (d : Daemon) (id : ℕ) (peer : SocketAddr) (now : ℕ) (text : List ℕ) (conn : Connection)
      → lookup d id ≡ some conn
      → (check_cmd d.limiter peer.ip now).1 ≡ true
      → on_control d id peer now text
        ≡ (record d { limiter = (check_cmd d.limiter peer.ip now).0 }, control id peer text ∷ [])
  unfolding on_control
  on_control-accepts d id peer now text conn e a = ground arith

  -- What a command does: it is handed over, and its connection is refreshed.
  abbrev pub accepted : Daemon → ℕ → SocketAddr → ℕ → Daemon
  accepted d id peer now = record {
    connections = Assoc.modify ℕ_discrete id (touched now) d.connections;
    limiter = (check_cmd d.limiter peer.ip now).0;
  }

  on_data-accepts :
      (d : Daemon) (h : PacketHeader w.Flags) (bytes : List ℕ) (peer : SocketAddr) (now : ℕ)
      (text : List ℕ)
      → IsOpen d h.conn_id peer
      → header_size < length bytes
      → cipher.decrypt psk h.nonce (drop header_size bytes) ≡ some text
      → h.stream_id ≡ 0
      → (check_cmd d.limiter peer.ip now).1 ≡ true
      → on_data w cipher psk d h bytes peer now
        ≡ (accepted d h.conn_id peer now, control h.conn_id peer text ∷ [])
  unfolding on_data admits
  on_data-accepts d h bytes peer now text o l e s a =
      let d' : Daemon = record d {
        connections = Assoc.modify ℕ_discrete h.conn_id (touched now) d.connections;
      } in
      ground (
        arith,
        on_control-accepts d' h.conn_id peer now text (touched now o.conn)
            (lookup-modify_self ℕ_discrete h.conn_id (touched now) d.connections
              ∙ ap (Option.map (touched now)) o.found)
            a,
        o.found,
        o.established,
        o.same_peer,
      )

  pub command_accepted :
      (d : Daemon) (bytes : List ℕ) (peer : SocketAddr) (now : ℕ) (h : PacketHeader w.Flags)
      (text : List ℕ)
      → IsCommand w cipher psk d bytes peer now h text
      → handle_packet_inner w cipher psk d bytes peer now
        ≡ (accepted d h.conn_id peer now, control h.conn_id peer text ∷ [])
  unfolding handle_packet_inner handle_header dispatch
  command_accepted d bytes peer now h text c =
      ap (λ o. handle_header w cipher psk o d bytes peer now) c.decoded
      ∙ ap (λ k. dispatch w cipher psk k d h bytes peer now) c.is_data
      ∙ on_data-accepts d h bytes peer now text c.is_open c.has_payload c.decrypted c.is_control
          c.within_rate

  accepted-IsOpen :
      (d : Daemon) (id : ℕ) (peer : SocketAddr) (now : ℕ)
      → IsOpen d id peer
      → IsOpen (accepted d id peer now) id peer
  accepted-IsOpen d id peer now o = record {
    conn = touched now o.conn;
    found =
        lookup-modify_self ℕ_discrete id (touched now) d.connections
        ∙ ap (Option.map (touched now)) o.found;
    established = o.established;
    same_peer = o.same_peer;
  }

  -- A command that the daemon accepts is handed to the control handler, and the same bytes from the
  -- same address are handed over again when they come next, at whatever time, if the rate limit
  -- allows it.
  pub replayed :
      (d : Daemon) (bytes : List ℕ) (peer : SocketAddr) (now later : ℕ) (h : PacketHeader w.Flags)
      (text : List ℕ)
      → IsCommand w cipher psk d bytes peer now h text
      → (check_cmd (handle_packet_inner w cipher psk d bytes peer now).0.limiter peer.ip later).1
        ≡ true
      → ((handle_packet_inner w cipher psk d bytes peer now).1 ≡ control h.conn_id peer text ∷ [])
        × ((handle_packet_inner w cipher psk
              (handle_packet_inner w cipher psk d bytes peer now).0
              bytes
              peer
              later).1
            ≡ control h.conn_id peer text ∷ [])
  replayed d bytes peer now later h text c a =
      let first = command_accepted d bytes peer now h text c in
      let d' = accepted d h.conn_id peer now in
      let again : IsCommand w cipher psk d' bytes peer later h text = record {
        decoded = c.decoded;
        is_data = c.is_data;
        is_control = c.is_control;
        is_open = accepted-IsOpen d h.conn_id peer now c.is_open;
        has_payload = c.has_payload;
        decrypted = c.decrypted;
        within_rate = sym (ap (λ r. (check_cmd r.0.limiter peer.ip later).1) first) ∙ a;
      } in
      (
        ap (λ r. r.1) first,
        ap (λ r. (handle_packet_inner w cipher psk r.0 bytes peer later).1) first
            ∙ ap (λ r. r.1) (command_accepted d' bytes peer later h text again),
      )
