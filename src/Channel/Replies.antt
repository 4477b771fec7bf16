-- ===== src/Channel/Replies.antt =====
-- The daemon's control messages on their way to the client, over UDP and over TCP
-- (crates/daemon/src/main.rs, crates/ctl/src/main.rs).
use mathlib.Core.Option
use lan_link.Prelude.{
  ℕ, ◌+◌, ◌%◌, ◌^◌, ◌≤◌, ◌<◌, ◌≡◌, refl, ap, sym, ◌∙◌, min, List, [], ◌++◌, length, take, take_all,
  drop, drop-append, length-append, some, arith,
}
use lan_link.Prelude.Words.{u16_mod, u32_mod}
use lan_link.Prelude.Branches.{map-some_inv}
use lan_link.Frame.Wire.{Wire}
use lan_link.Frame.Types.{header_size, max_packet}
use lan_link.Frame.Header.{PacketHeader, encode}
use lan_link.Crypto.{Cipher, make_nonce}
use lan_link.Channel.Codec.{Codec}
use lan_link.Channel.Delivery.{decode-packet, control_header, control_header-IsValid}
use lan_link.Prelude.Bytes.{be_bytes, from_be, length-be_bytes, from_be-be_bytes}
use lan_link.Prelude.{take-append, append_assoc}
use lan_link.Daemon.Packets.{build_encrypted_data}
use lan_link.Channel.Client.{
  parse_packet, recv_parsed, tcp_write, tcp_read_frame, open_data, recv_control_udp,
  recv_control_tcp,
}
use lan_link.Channel.Server.{send_control, build_control_packet_tcp}

read_parts :
    (bs p rest : List ℕ)
    → length bs ≡ 4
    → from_be bs ≡ length p
    → 0 < length p
    → length p ≤ 65536
    → tcp_read_frame (bs ++ (p ++ rest)) ≡ some (p, rest)
unfolding tcp_read_frame
read_parts bs p rest four n pos small =
    rw
      (
        tcp_read_frame,
        take-append bs (p ++ rest) 4 four,
        drop-append bs (p ++ rest) 4 four,
        n,
        take-append p rest (length p) refl,
        drop-append p rest (length p) refl,
      )
      (ground (arith, length-append bs (p ++ rest), length-append p rest))

-- A frame that was written is read back, and what follows it is left.
tcp_read_frame-tcp_write :
    (p rest : List ℕ)
    → 0 < length p
    → length p ≤ 65536
    → tcp_read_frame (tcp_write p ++ rest) ≡ some (p, rest)
unfolding tcp_write
tcp_read_frame-tcp_write p rest pos small =
    let n : length p % u32_mod ≡ length p = omega arith in
    ap tcp_read_frame (append_assoc (be_bytes 4 (length p % u32_mod)) p rest)
    ∙ read_parts (be_bytes 4 (length p % u32_mod)) p rest (length-be_bytes 4 (length p % u32_mod))
        (from_be-be_bytes 4 (length p % u32_mod) (omega arith) ∙ n) pos small

module _ (w : Wire) where
  -- `payload_len` is the length of what was encrypted, so nothing is cut off.
  take-payload_len :
      (id seq : ℕ) (encrypted : List ℕ)
      → length encrypted < 2 ^ 16
      → take (min (control_header w id seq encrypted).payload_len (length encrypted)) encrypted
        ≡ encrypted
  take-payload_len id seq encrypted small =
      take_all (min (length encrypted % u16_mod) (length encrypted)) encrypted (omega arith)

  recv_parsed-packet :
      (id seq : ℕ) (encrypted : List ℕ)
      → id < 2 ^ 64
      → seq < 2 ^ 32
      → header_size + length encrypted ≤ max_packet
      → recv_parsed w (encode w (control_header w id seq encrypted) [] ++ encrypted)
        ≡ some (control_header w id seq encrypted, encrypted)
  unfolding recv_parsed parse_packet
  recv_parsed-packet id seq encrypted h g small =
      let header = control_header w id seq encrypted in
      let parts =
        decode-packet w header encrypted (control_header-IsValid w id seq encrypted h g) in
      let cut : PacketHeader w.Flags × List ℕ → PacketHeader w.Flags × List ℕ =
        λ p. (p.0, take (min p.0.payload_len (length p.1)) p.1) in
      ap (λ ds. Option.map cut (parse_packet w ds))
        (take_all max_packet (encode w header [] ++ encrypted) (omega (arith, parts.2)))
      ∙ ap
          (λ r.
            Option.map cut
              (Option.map (λ x. (x, drop header_size (encode w header [] ++ encrypted))) r.0))
          parts.0
      ∙ ap (λ ct. some (cut (header, ct))) parts.1
      ∙ ap (λ ct. some (header, ct)) (take-payload_len id seq encrypted (omega arith))

module _ (w : Wire) (cipher : Cipher) (codec : Codec) (psk : List ℕ) where
  open_data-control :
      (id seq : ℕ) (msg : codec.Msg) (encrypted : List ℕ)
      → cipher.encrypt psk (make_nonce id seq) (codec.serialize msg) ≡ some encrypted
      → open_data w cipher codec psk (control_header w id seq encrypted) encrypted ≡ some msg
  unfolding open_data Option.bind
  open_data-control id seq msg encrypted e =
      rw (cipher.decrypt-encrypt psk (make_nonce id seq) (codec.serialize msg) encrypted e)
        (codec.deserialize-serialize msg)

  over_udp :
      (id seq : ℕ) (msg : codec.Msg) (encrypted : List ℕ)
      → id < 2 ^ 64
      → seq < 2 ^ 32
      → cipher.encrypt psk (make_nonce id seq) (codec.serialize msg) ≡ some encrypted
      → header_size + length encrypted ≤ max_packet
      → recv_control_udp w cipher codec psk
          (encode w (control_header w id seq encrypted) [] ++ encrypted)
        ≡ some msg
  unfolding recv_control_udp
  over_udp id seq msg encrypted h g e small =
      let size = cipher.length-encrypt psk (make_nonce id seq) (codec.serialize msg) encrypted e in
      rw (recv_control_udp, recv_parsed-packet w id seq encrypted h g small)
        (ground (arith, size, open_data-control id seq msg encrypted e))

  over_tcp :
      (id seq : ℕ) (msg : codec.Msg) (encrypted rest : List ℕ)
      → id < 2 ^ 64
      → seq < 2 ^ 32
      → cipher.encrypt psk (make_nonce id seq) (codec.serialize msg) ≡ some encrypted
      → header_size + length encrypted ≤ 65536
      → recv_control_tcp w cipher codec psk
          (tcp_write (encode w (control_header w id seq encrypted) [] ++ encrypted) ++ rest)
        ≡ some msg
  unfolding recv_control_tcp
  over_tcp id seq msg encrypted rest h g e small =
      let header = control_header w id seq encrypted in
      let parts =
        decode-packet w header encrypted (control_header-IsValid w id seq encrypted h g) in
      rw
        (
          recv_control_tcp,
          tcp_read_frame-tcp_write (encode w header [] ++ encrypted) rest (omega (arith, parts.2))
              (omega (arith, parts.2)),
          parts.0,
        )
        (ap
            (λ ct.
              open_data w cipher codec psk header (take (min header.payload_len (length ct)) ct))
            parts.1
          ∙ ap (open_data w cipher codec psk header)
              (take-payload_len w id seq encrypted (omega arith))
          ∙ open_data-control id seq msg encrypted e)

  send_control_inv :
      (id seq : ℕ) (msg : codec.Msg) (packet : List ℕ)
      → send_control w cipher codec psk id seq msg ≡ some packet
      → (c : List ℕ) × (cipher.encrypt psk (make_nonce id (seq % u32_mod)) (codec.serialize msg)
          ≡ some c)
        × (packet ≡ encode w (control_header w id (seq % u32_mod) c) [] ++ c)
  unfolding send_control build_encrypted_data
  send_control_inv id seq msg packet e =
      let (c, there, made) =
        map-some_inv
          (λ c.
            build_encrypted_data w id 0 (seq % u32_mod) w.reliable c
              (make_nonce id (seq % u32_mod)))
          (cipher.encrypt psk (make_nonce id (seq % u32_mod)) (codec.serialize msg)) packet e in
      (c, there, sym made ∙ w.put-slice c (encode w (control_header w id (seq % u32_mod) c) []))

  tcp_packet :
      (id seq : ℕ) (msg : codec.Msg) (encrypted : List ℕ)
      → cipher.encrypt psk (make_nonce id (seq % u32_mod)) (codec.serialize msg) ≡ some encrypted
      → build_control_packet_tcp w cipher codec psk id seq msg
        ≡ encode w (control_header w id (seq % u32_mod) encrypted) [] ++ encrypted
  unfolding build_control_packet_tcp
  tcp_packet id seq msg encrypted e = rw (build_control_packet_tcp, e) refl

  -- The daemon's message to a client, in a packet of at most `MAX_PACKET` bytes, is read back by the
  -- client as that message over UDP, and over TCP, whatever follows in the stream; both transports
  -- carry the same packet.
  pub reply_received :
      (id seq : ℕ) (msg : codec.Msg) (packet rest : List ℕ)
      → id < 2 ^ 64
      → send_control w cipher codec psk id seq msg ≡ some packet
      → length packet ≤ max_packet
      → (recv_control_udp w cipher codec psk packet ≡ some msg)
        × (build_control_packet_tcp w cipher codec psk id seq msg ≡ packet)
        × (recv_control_tcp w cipher codec psk (tcp_write packet ++ rest) ≡ some msg)
  reply_received id seq msg packet rest h e small =
      let seq32 = seq % u32_mod in
      let (encrypted, there, made) = send_control_inv id seq msg packet e in
      let header = control_header w id seq32 encrypted in
      let parts =
        decode-packet w header encrypted
          (control_header-IsValid w id seq32 encrypted h (omega arith)) in
      let size = ap length made ∙ parts.2 in
      (
        ap (recv_control_udp w cipher codec psk) made
            ∙ over_udp id seq32 msg encrypted h (omega arith) there (omega (arith, size)),
        tcp_packet id seq msg encrypted there ∙ sym made,
        ap (λ p. recv_control_tcp w cipher codec psk (tcp_write p ++ rest)) made
            ∙ over_tcp id seq32 msg encrypted rest h (omega arith) there (omega (arith, size)),
      )
