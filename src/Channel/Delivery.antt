-- ===== src/Channel/Delivery.antt =====
-- Messages between crates/ctl/src/main.rs and crates/daemon/src/main.rs, from end to end.

use lan_link.Prelude.{
  ℕ, ◌+◌, ◌^◌, ◌<◌, ◌≤◌, ◌≡◌, take_all, refl, ap, sym, ◌∙◌, List, [], ◌∷◌, ◌++◌, length, drop,
  drop-append, length-append, true, none, some, arith, ℕ_discrete,
}
use lan_link.Prelude.Assoc
use lan_link.Prelude.Branches.{map-some_inv}
use lan_link.Prelude.Assoc.{lookup-insert_self}
use lan_link.Frame.Wire.{Wire}
use lan_link.Frame.Types.{PacketType, header_size, max_packet}
use lan_link.Frame.Header.{PacketHeader, IsValid, encode, decode}
use lan_link.Frame.RoundTrip.{decode-encode, length-encode}
use lan_link.Crypto.{Cipher, make_nonce, length-make_nonce}
use lan_link.Daemon.Limiter.{RateLimiter, check_syn, check_cmd}
use lan_link.Daemon.Packets
use lan_link.Daemon.Packets.{
  SocketAddr, addr_eq_refl, plain_header, plain_header-IsValid, data_header, data_header-IsValid,
  build_syn, build_syn_ack,
}
use lan_link.Daemon.Handler.Steps.{
  Daemon, sent, control, lookup, on_syn, dispatch, handle_header, handle_packet_inner, receive,
}
use lan_link.Daemon.Handler.Accepts.{
  syn_connection, IsOpen, IsCommand, on_syn-opens, command_accepted,
}
use lan_link.Channel.Codec.{Codec}
use lan_link.Channel.Client.{encode_packet, syn_packet, encode_control}

module _ (w : Wire) where
  -- What the wire holds of a header and the payload after it.
  pub decode-packet :
      (h : PacketHeader w.Flags) (payload : List ℕ)
      → IsValid h
      → (decode w (encode w h [] ++ payload) ≡ (some h, payload))
        × (drop header_size (encode w h [] ++ payload) ≡ payload)
        × (length (encode w h [] ++ payload) ≡ header_size + length payload)
  decode-packet h payload v = (
    decode-encode w h payload v,
    drop-append (encode w h []) payload header_size (length-encode w h [] v),
    omega (arith, length-append (encode w h []) payload, length-encode w h [] v),
  )

  abbrev pub control_header : ℕ → ℕ → List ℕ → PacketHeader w.Flags
  control_header id seq encrypted = data_header w id 0 seq w.reliable encrypted (make_nonce id seq)

  pub control_header-IsValid :
      (id seq : ℕ) (encrypted : List ℕ)
      → id < 2 ^ 64
      → seq < 2 ^ 32
      → IsValid (control_header id seq encrypted)
  control_header-IsValid id seq encrypted h g =
      data_header-IsValid w id 0 seq w.reliable encrypted (make_nonce id seq) h (omega arith) g
        (length-make_nonce id seq)

module _ (w : Wire) (cipher : Cipher) (codec : Codec) (psk : List ℕ) where
  abbrev opened_daemon : Daemon → ℕ → SocketAddr → ℕ → Daemon
  opened_daemon d id peer now = record {
    connections = Assoc.insert ℕ_discrete id (syn_connection id peer now) d.connections;
    limiter = (check_syn d.limiter peer.ip now).0;
  }

  handle-syn_packet :
      (d : Daemon) (id : ℕ) (peer : SocketAddr) (now : ℕ)
      → id < 2 ^ 64
      → handle_packet_inner w cipher psk d (syn_packet w id) peer now
        ≡ on_syn w cipher psk d id peer now
  unfolding syn_packet encode_packet handle_packet_inner handle_header dispatch
  handle-syn_packet d id peer now h =
      let header = plain_header w PacketType.syn id in
      ap (λ o. handle_header w cipher psk o.0 d (encode w header [] ++ []) peer now)
        (decode-encode w header [] (plain_header-IsValid w PacketType.syn id h))

  opened-IsOpen :
      (d : Daemon) (id : ℕ) (peer : SocketAddr) (now : ℕ)
      → IsOpen (opened_daemon d id peer now) id peer
  unfolding Packets.new
  opened-IsOpen d id peer now = record {
    conn = syn_connection id peer now;
    found = lookup-insert_self ℕ_discrete id (syn_connection id peer now) d.connections;
    established = refl;
    same_peer = addr_eq_refl peer;
  }

  check_cmd-check_syn :
      (r : RateLimiter) (ip now later : ℕ)
      → (check_cmd (check_syn r ip now).0 ip later).1 ≡ (check_cmd r ip later).1
  unfolding check_cmd check_syn
  check_cmd-check_syn r ip now later = refl

  control_packet-IsCommand :
      (d : Daemon) (id seq : ℕ) (peer : SocketAddr) (now : ℕ) (plain encrypted : List ℕ)
      → id < 2 ^ 64
      → seq < 2 ^ 32
      → IsOpen d id peer
      → (check_cmd d.limiter peer.ip now).1 ≡ true
      → cipher.encrypt psk (make_nonce id seq) plain ≡ some encrypted
      → IsCommand w cipher psk d
          (encode w (control_header w id seq encrypted) [] ++ encrypted)
          peer
          now
          (control_header w id seq encrypted)
          plain
  control_packet-IsCommand d id seq peer now plain encrypted h g open_ ok e =
      let parts =
        decode-packet w (control_header w id seq encrypted) encrypted
          (control_header-IsValid w id seq encrypted h g) in
      record {
        decoded = ap (λ r. r.0) parts.0;
        is_data = refl;
        is_control = refl;
        is_open = open_;
        has_payload =
            omega (arith, parts.2, cipher.length-encrypt psk (make_nonce id seq) plain encrypted e);
        decrypted =
            ap (cipher.decrypt psk (make_nonce id seq)) parts.1
            ∙ cipher.decrypt-encrypt psk (make_nonce id seq) plain encrypted e;
        within_rate = ok;
      }

  -- A datagram that fits the buffer is handled whole.
  receive_lem :
      (d : Daemon) (datagram : List ℕ) (peer : SocketAddr) (now : ℕ)
      → length datagram ≤ max_packet
      → receive w cipher psk d datagram peer now
        ≡ handle_packet_inner w cipher psk d datagram peer now
  unfolding receive
  receive_lem d datagram peer now fits =
      ap (λ bytes. handle_packet_inner w cipher psk d bytes peer now)
        (take_all max_packet datagram fits)

  length-syn_packet : (id : ℕ) → id < 2 ^ 64 → length (syn_packet w id) ≤ max_packet
  unfolding syn_packet encode_packet
  length-syn_packet id h =
      let header = plain_header w PacketType.syn id in
      let v = plain_header-IsValid w PacketType.syn id h in
      omega (arith, length-append (encode w header []) [], length-encode w header [] v)

  -- A client that sends a SYN with a new id and then a message, in a packet of at most `MAX_PACKET`
  -- bytes, has the SYN answered and the bytes of the message handed to the control handler: if the
  -- limits of connections and of both rates allow it.
  pub command_delivered :
      (d : Daemon) (id seq : ℕ) (peer : SocketAddr) (now later : ℕ) (msg : codec.Msg)
      (packet : List ℕ)
      → id < 2 ^ 64
      → seq < 2 ^ 32
      → lookup d id ≡ none
      → length d.connections < 100
      → (check_syn d.limiter peer.ip now).1 ≡ true
      → (check_cmd d.limiter peer.ip later).1 ≡ true
      → encode_control w cipher codec psk id seq msg ≡ some packet
      → length packet ≤ max_packet
      → ((receive w cipher psk d (syn_packet w id) peer now).1
          ≡ sent (build_syn_ack w id) peer ∷ [])
        × ((receive w cipher psk
              (receive w cipher psk d (syn_packet w id) peer now).0
              packet
              peer
              later).1
            ≡ control id peer (codec.serialize msg) ∷ [])
  unfolding encode_control encode_packet
  command_delivered d id seq peer now later msg packet h g new_id room syn_ok cmd_ok e fits =
      let text = codec.serialize msg in
      let (encrypted, there, made) =
        map-some_inv
          (λ c. encode_packet w id PacketType.data_ 0 seq w.reliable c (make_nonce id seq))
          (cipher.encrypt psk (make_nonce id seq) text) packet e in
      let first =
        receive_lem d (syn_packet w id) peer now (length-syn_packet id h)
        ∙ handle-syn_packet d id peer now h
        ∙ on_syn-opens w cipher psk d id peer now new_id room syn_ok in
      let d' = opened_daemon d id peer now in
      let command =
        control_packet-IsCommand d' id seq peer later text encrypted h g
          (opened-IsOpen d id peer now) (check_cmd-check_syn d.limiter peer.ip now later ∙ cmd_ok)
          there in
      (
        ap (λ r. r.1) first,
        ap (λ r. (receive w cipher psk r.0 packet peer later).1) first
            ∙ ap (λ r. r.1) (receive_lem d' packet peer later fits)
            ∙ ap (λ p. (handle_packet_inner w cipher psk d' p peer later).1) (sym made)
            ∙ ap (λ r. r.1)
                (command_accepted w cipher psk d'
                  (encode w (control_header w id seq encrypted) [] ++ encrypted) peer later
                  (control_header w id seq encrypted) text command),
      )
