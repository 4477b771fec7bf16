-- ===== src/Frame/Header.antt =====
-- `PacketHeader` of crates/protocol/src/frame.rs, with its encoder and decoder.
use lan_link.Prelude.{ℕ, ◌^◌, ◌<◌, ◌≡◌, List, length, Option, none, some, ltb, if◌then◌else◌}
use lan_link.Frame.Wire.{Wire}
use lan_link.Frame.Types.{header_size, PacketType, packet_type_code, packet_type_from_u8}

pub record PacketHeader (Flags : Type 0) : Type 0 where
  pub conn_id : ℕ
  pub pkt_type : PacketType
  pub flags : Flags
  pub stream_id : ℕ
  pub seq : ℕ
  pub ack_seq : ℕ
  pub ack_bitmap : ℕ
  pub payload_len : ℕ
  pub nonce : List ℕ

-- The fields fit the widths of their Rust types.
pub record IsValid {F : Type 0} (h : PacketHeader F) : Type 0 where
  pub conn_id_u64 : h.conn_id < 2 ^ 64
  pub stream_id_u16 : h.stream_id < 2 ^ 16
  pub seq_u32 : h.seq < 2 ^ 32
  pub ack_seq_u32 : h.ack_seq < 2 ^ 32
  pub ack_bitmap_u32 : h.ack_bitmap < 2 ^ 32
  pub payload_len_u16 : h.payload_len < 2 ^ 16
  pub nonce_12 : length h.nonce ≡ 12

module _ (w : Wire) where
  open w use {
    put_u8, put_u16_le, put_u32_le, put_u64_le, put_slice, remaining, get_u8, get_u16_le,
    get_u32_le, get_u64_le, copy_to_slice, bits, from_bits_retain,
  }

  -- The buffer after `encode`.
  unfoldable pub encode : PacketHeader w.Flags → List ℕ → List ℕ
  encode h buf =
      let b₁ = put_u64_le h.conn_id buf in
      let b₂ = put_u8 (packet_type_code h.pkt_type) b₁ in
      let b₃ = put_u8 (bits h.flags) b₂ in
      let b₄ = put_u16_le h.stream_id b₃ in
      let b₅ = put_u32_le h.seq b₄ in
      let b₆ = put_u32_le h.ack_seq b₅ in
      let b₇ = put_u32_le h.ack_bitmap b₆ in
      let b₈ = put_u16_le h.payload_len b₇ in put_slice h.nonce b₈

  -- What `decode` reads after the packet type.
  unfoldable pub decode_rest : ℕ → PacketType → List ℕ → Option (PacketHeader w.Flags) × List ℕ
  decode_rest conn_id pkt_type b₂ =
      let (raw_flags, b₃) = get_u8 b₂ in
      let (stream_id, b₄) = get_u16_le b₃ in
      let (seq, b₅) = get_u32_le b₄ in
      let (ack_seq, b₆) = get_u32_le b₅ in
      let (ack_bitmap, b₇) = get_u32_le b₆ in
      let (payload_len, b₈) = get_u16_le b₇ in
      let (nonce, b₉) = copy_to_slice 12 b₈ in
      (
        some (record {
          conn_id = conn_id;
          pkt_type = pkt_type;
          flags = from_bits_retain raw_flags;
          stream_id = stream_id;
          seq = seq;
          ack_seq = ack_seq;
          ack_bitmap = ack_bitmap;
          payload_len = payload_len;
          nonce = nonce;
        }),
        b₉,
      )

  -- The result, and what is left in the buffer.
  unfoldable pub decode : List ℕ → Option (PacketHeader w.Flags) × List ℕ
  decode buf =
      if ltb (remaining buf) header_size
      then (none, buf)
      else (let (conn_id, b₁) = get_u64_le buf in
          let (raw_type, b₂) = get_u8 b₁ in
          elim (packet_type_from_u8 raw_type) [
            | none ↦ (none, b₂)
            | some pkt_type ↦ decode_rest conn_id pkt_type b₂
          ])
