-- ===== src/Channel/Client.antt =====
-- The control channel of the client (crates/ctl/src/main.rs). A panic of `encode_control` is `none`;
-- a message that is received is `some`, and whatever ends the call without one is `none`.
use mathlib.Core.Option
use lan_link.Prelude.{
  ℕ, ◌%◌, min, List, [], ◌++◌, length, replicate, take, drop, Bool, true, false, not, Option, none,
  some, ltb, if◌then◌else◌, ◌==◌, ◌||◌,
}
use lan_link.Prelude.Words.{u16_mod, u32_mod}
use lan_link.Prelude.Bytes.{be_bytes, from_be}
use lan_link.Frame.Wire.{Wire}
use lan_link.Frame.Types.{PacketType, header_size, max_packet}
use lan_link.Frame.Header.{PacketHeader, encode, decode}
use lan_link.Crypto.{Cipher, make_nonce}
use lan_link.Channel.Codec.{Codec}

abbrev pub is_data : PacketType → Bool
is_data PacketType.data_ = true
is_data _ = false

module _ (w : Wire) where
  unfoldable pub encode_packet : ℕ → PacketType → ℕ → ℕ → w.Flags → List ℕ → List ℕ → List ℕ
  encode_packet conn_id pkt_type stream_id seq flags payload nonce =
      let header : PacketHeader w.Flags = record {
        conn_id = conn_id;
        pkt_type = pkt_type;
        flags = flags;
        stream_id = stream_id;
        seq = seq;
        ack_seq = 0;
        ack_bitmap = 0;
        payload_len = length payload % u16_mod;
        nonce = nonce;
      } in
      encode w header [] ++ payload

  -- The SYN with which `Ctx::connect` begins.
  unfoldable pub syn_packet : ℕ → List ℕ
  syn_packet conn_id = encode_packet conn_id PacketType.syn 0 0 w.no_flags [] (replicate 12 0)

  unfoldable pub parse_packet : List ℕ → Option (PacketHeader w.Flags × List ℕ)
  parse_packet data_bytes =
      Option.map (λ header. (header, drop header_size data_bytes)) (decode w data_bytes).0

  -- A datagram as `recv_from` leaves it in a buffer of `MAX_PACKET` bytes, parsed and cut.
  unfoldable pub recv_parsed : List ℕ → Option (PacketHeader w.Flags × List ℕ)
  recv_parsed datagram =
      Option.map (λ p. (p.0, take (min p.0.payload_len (length p.1)) p.1))
        (parse_packet (take max_packet datagram))

-- `tcp_write`: the bytes that it writes.
unfoldable pub tcp_write : List ℕ → List ℕ
tcp_write data_bytes = be_bytes 4 (length data_bytes % u32_mod) ++ data_bytes

-- `tcp_read_frame`: the frame and what is left of the stream.
unfoldable pub tcp_read_frame : List ℕ → Option (List ℕ × List ℕ)
tcp_read_frame stream =
    let frame_len = from_be (take 4 stream) in
    let rest = drop 4 stream in
    if ltb (length stream) 4
    then none
    else if (frame_len == 0) || ltb 65536 frame_len
    then none
    else if ltb (length rest) frame_len
    then none
    else some (take frame_len rest, drop frame_len rest)

module _ (w : Wire) (cipher : Cipher) (codec : Codec) (psk : List ℕ) where
  unfoldable pub encode_control : ℕ → ℕ → codec.Msg → Option (List ℕ)
  encode_control conn_id seq msg =
      let nonce = make_nonce conn_id seq in
      Option.map
        (λ encrypted. encode_packet w conn_id PacketType.data_ 0 seq w.reliable encrypted nonce)
        (cipher.encrypt psk nonce (codec.serialize msg))

  -- What both transports do with a header and the data that `payload_len` leaves.
  unfoldable pub open_data : PacketHeader w.Flags → List ℕ → Option codec.Msg
  open_data header bytes =
      if not (is_data header.pkt_type)
      then none
      else Option.bind (cipher.decrypt psk header.nonce bytes) codec.deserialize

  unfoldable pub recv_control_udp : List ℕ → Option codec.Msg
  recv_control_udp datagram = elim (recv_parsed w datagram) [
    | none ↦ none
    | some (header, bytes) ↦ if length bytes == 0 then none else open_data header bytes
  ]

  unfoldable pub recv_control_tcp : List ℕ → Option codec.Msg
  recv_control_tcp stream = elim (tcp_read_frame stream) [
    | none ↦ none
    | some (frame, rest) ↦ elim (decode w frame).0 [
      | none ↦ none
      | some header ↦
          let ct = drop header_size frame in
          open_data header (take (min header.payload_len (length ct)) ct)
    ]
  ]
