-- ===== src/Daemon/Handler/Authority.antt =====
-- What a packet has to be for the daemon to act on it (crates/daemon/src/main.rs).

use lan_link.Prelude.{
  ℕ, ◌≡◌, refl, List, All, length, drop, true, not, Option, none, some, leb, ◌==◌, ℕ_discrete,
  arith,
}
use lan_link.Prelude.Assoc
use lan_link.Prelude.Branches.{on_if, on_option}
use lan_link.Frame.Wire.{Wire}
use lan_link.Frame.Types.{PacketType, header_size}
use lan_link.Frame.Header.{PacketHeader, decode}
use lan_link.Crypto.{Cipher}
use lan_link.Daemon.Limiter.{check_syn, check_cmd}
use lan_link.Daemon.Packets.{SocketAddr, addr_eq, addr_eq_refl, is_established}
use lan_link.Daemon.Handler.Steps.{
  max_connections, touched, Daemon, Output, sent, control, lookup, on_syn, on_control, admits,
  on_data, on_heartbeat, dispatch, handle_header, handle_packet_inner,
}

module _ (w : Wire) (cipher : Cipher) (psk : List ℕ) where
  -- `text` is what a data packet of stream 0 carries, and it comes from the peer of an established
  -- connection that is within its rate.
  pub record IsAuthorized (d : Daemon) (bytes : List ℕ) (peer : SocketAddr) (now : ℕ) (id : ℕ)
      (text : List ℕ) : Type 0 where
    pub header : PacketHeader w.Flags
    pub decoded : (decode w bytes).0 ≡ some header
    pub is_data : header.pkt_type ≡ PacketType.data_
    pub is_control : header.stream_id ≡ 0
    pub is_conn : header.conn_id ≡ id
    pub admitted : admits d id peer ≡ true
    pub decrypted : cipher.decrypt psk header.nonce (drop header_size bytes) ≡ some text
    pub within_rate : (check_cmd d.limiter peer.ip now).1 ≡ true

  -- What an output has to be: a reply to the sender, or a plaintext of an authorized packet.
  abbrev pub Justified : Daemon → List ℕ → SocketAddr → ℕ → Output → Type 0
  Justified d bytes peer now (sent reply to) = addr_eq to peer ≡ true
  Justified d bytes peer now (control id from text) =
      (from ≡ peer) × IsAuthorized d bytes peer now id text

  on_data-Justified :
      (d : Daemon) (h : PacketHeader w.Flags) (bytes : List ℕ) (peer : SocketAddr) (now : ℕ)
      → (decode w bytes).0 ≡ some h
      → h.pkt_type ≡ PacketType.data_
      → All (Justified d bytes peer now) (on_data w cipher psk d h bytes peer now).1
  unfolding on_data on_control
  on_data-Justified d h bytes peer now e k =
      let P : Daemon × List Output → Type 0 = λ r. All (Justified d bytes peer now) r.1 in
      on_if P (not (admits d h.conn_id peer)) (λ _. tt)
        (λ admitted.
          on_if P (leb (length bytes) header_size) (λ _. tt)
            (λ _.
              on_option P (cipher.decrypt psk h.nonce (drop header_size bytes)) (λ _. tt)
                (λ text decrypted.
                  on_if P (h.stream_id == 0)
                    (λ control.
                      on_if P (not (check_cmd d.limiter peer.ip now).1) (λ _. tt)
                        (λ allowed.
                          let J : IsAuthorized d bytes peer now h.conn_id text = record {
                            header = h;
                            decoded = e;
                            is_data = k;
                            is_control = ground arith;
                            is_conn = refl;
                            admitted = ground arith;
                            decrypted = decrypted;
                            within_rate = ground arith;
                          } in
                          on_option P
                            (Assoc.lookup ℕ_discrete h.conn_id
                              (Assoc.modify ℕ_discrete h.conn_id (touched now) d.connections))
                            (λ _. tt) (λ _ _. ((refl, J), tt))))
                    (λ _. tt))))

  on_syn-Justified :
      (d : Daemon) (id : ℕ) (bytes : List ℕ) (peer : SocketAddr) (now : ℕ)
      → All (Justified d bytes peer now) (on_syn w cipher psk d id peer now).1
  unfolding on_syn
  on_syn-Justified d id bytes peer now =
      let P : Daemon × List Output → Type 0 = λ r. All (Justified d bytes peer now) r.1 in
      on_if P (not (check_syn d.limiter peer.ip now).1) (λ _. tt)
        (λ _.
          on_if P (leb max_connections (length d.connections)) (λ _. tt)
            (λ _.
              on_option P (lookup d id) (λ _. (addr_eq_refl peer, tt))
                (λ c _.
                  on_if P (not (addr_eq c.peer peer)) (λ _. tt) (λ _. (addr_eq_refl peer, tt)))))

  on_heartbeat-Justified :
      (d : Daemon) (id : ℕ) (bytes : List ℕ) (peer : SocketAddr) (now : ℕ)
      → All (Justified d bytes peer now) (on_heartbeat w cipher psk d id peer now).1
  unfolding on_heartbeat
  on_heartbeat-Justified d id bytes peer now =
      let P : Daemon × List Output → Type 0 = λ r. All (Justified d bytes peer now) r.1 in
      on_option P (lookup d id) (λ _. tt)
        (λ c _.
          on_if P (not (is_established c.state)) (λ _. tt)
            (λ _. on_if P (not (addr_eq c.peer peer)) (λ _. tt) (λ same. (ground arith, tt))))

  dispatch-Justified :
      (kind : PacketType) (d : Daemon) (h : PacketHeader w.Flags) (bytes : List ℕ)
      (peer : SocketAddr) (now : ℕ)
      → (decode w bytes).0 ≡ some h
      → h.pkt_type ≡ kind
      → All (Justified d bytes peer now) (dispatch w cipher psk kind d h bytes peer now).1
  unfolding dispatch
  dispatch-Justified PacketType.syn d h bytes peer now e k =
      on_syn-Justified d h.conn_id bytes peer now
  dispatch-Justified PacketType.syn_ack d h bytes peer now e k = tt
  dispatch-Justified PacketType.ack d h bytes peer now e k = tt
  dispatch-Justified PacketType.data_ d h bytes peer now e k =
      on_data-Justified d h bytes peer now e k
  dispatch-Justified PacketType.rst d h bytes peer now e k = tt
  dispatch-Justified PacketType.heartbeat d h bytes peer now e k =
      on_heartbeat-Justified d h.conn_id bytes peer now

  handled-Justified :
      (o : Option (PacketHeader w.Flags)) (d : Daemon) (bytes : List ℕ) (peer : SocketAddr)
      (now : ℕ)
      → (decode w bytes).0 ≡ o
      → All (Justified d bytes peer now) (handle_header w cipher psk o d bytes peer now).1
  unfolding handle_header
  handled-Justified none d bytes peer now e = tt
  handled-Justified (some h) d bytes peer now e =
      dispatch-Justified h.pkt_type d h bytes peer now e refl

  -- To a UDP packet the daemon answers only its sender, and it hands a plaintext to the control handler
  -- only if the packet has a header, is data of stream 0, comes from the peer of an established
  -- connection, is within the rate of its address, and decrypts to that plaintext.
  pub outputs-Justified :
      (d : Daemon) (bytes : List ℕ) (peer : SocketAddr) (now : ℕ)
      → All (Justified d bytes peer now) (handle_packet_inner w cipher psk d bytes peer now).1
  unfolding handle_packet_inner handle_header
  outputs-Justified d bytes peer now = handled-Justified (decode w bytes).0 d bytes peer now refl
