-- ===== src/Daemon/Handler/Isolation.antt =====
-- What a packet leaves of the other connections, and what a packet from another address than the
-- peer's can do (crates/daemon/src/main.rs).

use lan_link.Prelude.{
  sym, ℕ, ◌≡◌, ◌≢◌, refl, ap, ◌∙◌, List, [], false, none, some, ℕ_discrete, arith,
}
use lan_link.Prelude.Assoc.{
  lookup-insert_ne, lookup-modify_self, lookup-remove_self, lookup-remove_ne, lookup-modify_ne,
}
use lan_link.Frame.Wire.{Wire}
use lan_link.Frame.Types.{PacketType}
use lan_link.Frame.Header.{PacketHeader, decode}
use lan_link.Crypto.{Cipher}
use lan_link.Daemon.Packets.{SocketAddr, addr_eq, ConnState, is_established, Connection}
use lan_link.Daemon.Packets
use lan_link.Daemon.Handler.Steps.{
  Daemon, lookup, on_syn, on_syn_ack, on_control, admits, on_data, on_heartbeat, on_rst, dispatch,
  handle_header, handle_packet_inner, touched, opened,
}

module _ (w : Wire) (cipher : Cipher) (psk : List ℕ) where
  on_syn_ne :
      (d : Daemon) (id q : ℕ) (peer : SocketAddr) (now : ℕ)
      → q ≢ id
      → lookup (on_syn w cipher psk d id peer now).0 q ≡ lookup d q
  unfolding on_syn
  on_syn_ne d id q peer now h = ground (
    arith,
    lookup-insert_ne ℕ_discrete id q
        (record (Packets.new id peer now) { state = ConnState.established }) d.connections h,
  )

  on_data_ne :
      (d : Daemon) (h : PacketHeader w.Flags) (bytes : List ℕ) (q : ℕ) (peer : SocketAddr) (now : ℕ)
      → q ≢ h.conn_id
      → lookup (on_data w cipher psk d h bytes peer now).0 q ≡ lookup d q
  unfolding on_data on_control
  on_data_ne d h bytes q peer now n =
      ground (arith, lookup-modify_ne ℕ_discrete h.conn_id q (touched now) d.connections n)

  on_heartbeat_ne :
      (d : Daemon) (id q : ℕ) (peer : SocketAddr) (now : ℕ)
      → q ≢ id
      → lookup (on_heartbeat w cipher psk d id peer now).0 q ≡ lookup d q
  unfolding on_heartbeat
  on_heartbeat_ne d id q peer now n =
      ground (arith, lookup-modify_ne ℕ_discrete id q (touched now) d.connections n)

  dispatch_ne :
      (kind : PacketType) (d : Daemon) (h : PacketHeader w.Flags) (bytes : List ℕ) (q : ℕ)
      (peer : SocketAddr) (now : ℕ)
      → q ≢ h.conn_id
      → lookup (dispatch w cipher psk kind d h bytes peer now).0 q ≡ lookup d q
  unfolding dispatch on_syn_ack on_rst
  dispatch_ne PacketType.syn d h bytes q peer now n = on_syn_ne d h.conn_id q peer now n
  dispatch_ne PacketType.syn_ack d h bytes q peer now n =
      lookup-modify_ne ℕ_discrete h.conn_id q (opened now) d.connections n
  dispatch_ne PacketType.ack d h bytes q peer now n = refl
  dispatch_ne PacketType.data_ d h bytes q peer now n = on_data_ne d h bytes q peer now n
  dispatch_ne PacketType.rst d h bytes q peer now n =
      lookup-remove_ne ℕ_discrete h.conn_id q d.connections n
  dispatch_ne PacketType.heartbeat d h bytes q peer now n = on_heartbeat_ne d h.conn_id q peer now n

  -- A packet changes no connection but the one that its header names, whatever its type and content.
  pub other_connections_kept :
      (d : Daemon) (bytes : List ℕ) (peer : SocketAddr) (now q : ℕ) (h : PacketHeader w.Flags)
      → (decode w bytes).0 ≡ some h
      → q ≢ h.conn_id
      → lookup (handle_packet_inner w cipher psk d bytes peer now).0 q ≡ lookup d q
  unfolding handle_packet_inner handle_header
  other_connections_kept d bytes peer now q h e n =
      ap (λ o. lookup (handle_header w cipher psk o d bytes peer now).0 q) e
      ∙ dispatch_ne h.pkt_type d h bytes q peer now n

  -- A packet, other than RST and SYN-ACK, whose source is not the peer of the connection.
  foreign_dispatch :
      (kind : PacketType) (d : Daemon) (h : PacketHeader w.Flags) (bytes : List ℕ)
      (peer : SocketAddr) (now : ℕ) (conn : Connection)
      → lookup d h.conn_id ≡ some conn
      → addr_eq conn.peer peer ≡ false
      → kind ≢ PacketType.rst
      → kind ≢ PacketType.syn_ack
      → ((dispatch w cipher psk kind d h bytes peer now).0.connections ≡ d.connections)
        × ((dispatch w cipher psk kind d h bytes peer now).1 ≡ [])
  unfolding dispatch on_syn on_data on_heartbeat admits
  foreign_dispatch PacketType.syn d h bytes peer now conn e f r s = (ground arith, ground arith)
  foreign_dispatch PacketType.syn_ack d h bytes peer now conn e f r s = absurd (s refl)
  foreign_dispatch PacketType.ack d h bytes peer now conn e f r s = (refl, refl)
  foreign_dispatch PacketType.data_ d h bytes peer now conn e f r s = (ground arith, ground arith)
  foreign_dispatch PacketType.rst d h bytes peer now conn e f r s = absurd (r refl)
  foreign_dispatch PacketType.heartbeat d h bytes peer now conn e f r s =
      (ground arith, ground arith)

  -- A packet for a connection from another address than its peer's leaves the table of connections
  -- as it is and is not answered, unless it is an RST or a SYN-ACK.
  pub foreign_packet :
      (d : Daemon) (bytes : List ℕ) (peer : SocketAddr) (now : ℕ) (h : PacketHeader w.Flags)
      (conn : Connection)
      → (decode w bytes).0 ≡ some h
      → lookup d h.conn_id ≡ some conn
      → addr_eq conn.peer peer ≡ false
      → h.pkt_type ≢ PacketType.rst
      → h.pkt_type ≢ PacketType.syn_ack
      → ((handle_packet_inner w cipher psk d bytes peer now).0.connections ≡ d.connections)
        × ((handle_packet_inner w cipher psk d bytes peer now).1 ≡ [])
  unfolding handle_packet_inner handle_header
  foreign_packet d bytes peer now h conn e l f r s =
      rw e (foreign_dispatch h.pkt_type d h bytes peer now conn l f r s)

  -- No packet but a SYN brings back a connection that is not there, or is answered.
  dispatch_gone :
      (kind : PacketType) (d : Daemon) (h : PacketHeader w.Flags) (bytes : List ℕ)
      (peer : SocketAddr) (now : ℕ)
      → lookup d h.conn_id ≡ none
      → kind ≢ PacketType.syn
      → (lookup (dispatch w cipher psk kind d h bytes peer now).0 h.conn_id ≡ none)
        × ((dispatch w cipher psk kind d h bytes peer now).1 ≡ [])
  unfolding dispatch on_data on_heartbeat on_syn_ack on_rst admits
  dispatch_gone PacketType.syn d h bytes peer now e n = absurd (n refl)
  dispatch_gone PacketType.syn_ack d h bytes peer now e n =
      (lookup-modify_self ℕ_discrete h.conn_id (opened now) d.connections ∙ rw e refl, refl)
  dispatch_gone PacketType.ack d h bytes peer now e n = (e, refl)
  dispatch_gone PacketType.data_ d h bytes peer now e n = (ground arith, ground arith)
  dispatch_gone PacketType.rst d h bytes peer now e n =
      (lookup-remove_self ℕ_discrete h.conn_id d.connections, refl)
  dispatch_gone PacketType.heartbeat d h bytes peer now e n = (ground arith, ground arith)

  -- After an RST for a connection, whoever sent it, a packet for that connection is not answered and
  -- not handed on, whoever sends it and whatever is in it, and the connection stays away, unless the
  -- packet is a SYN.
  pub rst_from_anyone :
      (d : Daemon) (rst bytes : List ℕ) (stranger peer : SocketAddr) (now later : ℕ)
      (h g : PacketHeader w.Flags)
      → (decode w rst).0 ≡ some h
      → h.pkt_type ≡ PacketType.rst
      → (decode w bytes).0 ≡ some g
      → g.conn_id ≡ h.conn_id
      → g.pkt_type ≢ PacketType.syn
      → ((handle_packet_inner w cipher psk
            (handle_packet_inner w cipher psk d rst stranger now).0
            bytes
            peer
            later).1
          ≡ [])
        × (lookup
              (handle_packet_inner w cipher psk
                (handle_packet_inner w cipher psk d rst stranger now).0
                bytes
                peer
                later).0
              h.conn_id
            ≡ none)
  unfolding handle_packet_inner handle_header on_rst dispatch
  rst_from_anyone d rst bytes stranger peer now later h g e k f same n =
      let gone =
        dispatch_gone g.pkt_type (on_rst d h.conn_id) g bytes peer later
          (ap (λ id. lookup (on_rst d h.conn_id) id) same
            ∙ lookup-remove_self ℕ_discrete h.conn_id d.connections)
          n in
      rw (e, k, f)
        (
          gone.1,
          ap
                (λ id.
                  lookup
                    (dispatch w cipher psk g.pkt_type (on_rst d h.conn_id) g bytes peer later).0 id)
                (sym same)
              ∙ gone.0,
        )
