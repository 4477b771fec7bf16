-- ===== src/Frame/Laws.antt =====
-- Encoding and decoding of the packet header, on every input.

use lan_link.Prelude.{
  ℕ, ◌+◌, ◌^◌, ◌<◌, ◌≡◌, refl, ap, ◌∙◌, inl, inr, List, ◌∷◌, ◌++◌, length, append_assoc,
  length-append, false, Option, none, some, Option-cases, ltb, arith,
}
use lan_link.Prelude.Bytes.{le_bytes, length-le_bytes, from_le-le_bytes}
use lan_link.Frame.Wire.{Wire}
use lan_link.Frame.Types.{PacketType, packet_type_code, packet_type_from_u8}
use lan_link.Frame.Header.{PacketHeader, IsValid, encode, decode, decode_rest}

-- The numbers that stand in the 38 bytes of a header.
pub record Raw : Type 0 where
  pub conn_id : ℕ
  pub raw_type : ℕ
  pub raw_flags : ℕ
  pub stream_id : ℕ
  pub seq : ℕ
  pub ack_seq : ℕ
  pub ack_bitmap : ℕ
  pub payload_len : ℕ
  pub nonce : List ℕ

pub record Fits (r : Raw) : Type 0 where
  pub conn_id_fits : r.conn_id < 256 ^ 8
  pub raw_flags_fits : r.raw_flags < 256
  pub stream_id_fits : r.stream_id < 256 ^ 2
  pub seq_fits : r.seq < 256 ^ 4
  pub ack_seq_fits : r.ack_seq < 256 ^ 4
  pub ack_bitmap_fits : r.ack_bitmap < 256 ^ 4
  pub payload_len_fits : r.payload_len < 256 ^ 2
  pub nonce_fits : length r.nonce ≡ 12

-- The bytes behind the packet type, and all of them, with what follows.
abbrev pub tail_bytes : Raw → List ℕ → List ℕ
tail_bytes r rest =
    r.raw_flags
    ∷ (le_bytes 2 r.stream_id
        ++ (le_bytes 4 r.seq
            ++ (le_bytes 4 r.ack_seq
                ++ (le_bytes 4 r.ack_bitmap ++ (le_bytes 2 r.payload_len ++ (r.nonce ++ rest))))))

abbrev pub raw_bytes : Raw → List ℕ → List ℕ
raw_bytes r rest = le_bytes 8 r.conn_id ++ (r.raw_type ∷ tail_bytes r rest)

abbrev pub header_of : {F : Type 0} → (ℕ → F) → PacketType → Raw → PacketHeader F
header_of flags t r = record {
  conn_id = r.conn_id;
  pkt_type = t;
  flags = flags r.raw_flags;
  stream_id = r.stream_id;
  seq = r.seq;
  ack_seq = r.ack_seq;
  ack_bitmap = r.ack_bitmap;
  payload_len = r.payload_len;
  nonce = r.nonce;
}

length-tail_bytes :
    (r : Raw) (rest : List ℕ) → length r.nonce ≡ 12 → length (tail_bytes r rest) ≡ 29 + length rest
length-tail_bytes r rest h = simp (length-append, length-le_bytes, h) (omega arith)

pub length-raw_bytes :
    (r : Raw) (rest : List ℕ) → length r.nonce ≡ 12 → length (raw_bytes r rest) ≡ 38 + length rest
length-raw_bytes r rest h =
    simp (length-append, length-le_bytes) (omega (arith, length-tail_bytes r rest h))

module _ (w : Wire) where
  get_u8_form : (b : ℕ) (rest : List ℕ) → w.get_u8 (b ∷ rest) ≡ (b, rest)
  get_u8_form b rest = w.get-u8 b rest

  get_u16_form :
      (n : ℕ) (rest : List ℕ) → n < 256 ^ 2 → w.get_u16_le (le_bytes 2 n ++ rest) ≡ (n, rest)
  get_u16_form n rest h =
      w.get-u16 (le_bytes 2 n) rest (length-le_bytes 2 n)
      ∙ ap (λ v. (v, rest)) (from_le-le_bytes 2 n h)

  get_u32_form :
      (n : ℕ) (rest : List ℕ) → n < 256 ^ 4 → w.get_u32_le (le_bytes 4 n ++ rest) ≡ (n, rest)
  get_u32_form n rest h =
      w.get-u32 (le_bytes 4 n) rest (length-le_bytes 4 n)
      ∙ ap (λ v. (v, rest)) (from_le-le_bytes 4 n h)

  get_u64_form :
      (n : ℕ) (rest : List ℕ) → n < 256 ^ 8 → w.get_u64_le (le_bytes 8 n ++ rest) ≡ (n, rest)
  get_u64_form n rest h =
      w.get-u64 (le_bytes 8 n) rest (length-le_bytes 8 n)
      ∙ ap (λ v. (v, rest)) (from_le-le_bytes 8 n h)

  decode_rest-tail_bytes :
      (t : PacketType) (r : Raw) (rest : List ℕ)
      → Fits r
      → decode_rest w r.conn_id t (tail_bytes r rest)
        ≡ (some (header_of w.from_bits_retain t r), rest)
  unfolding decode_rest
  decode_rest-tail_bytes t r rest v =
      rw
        (
          w.get-u8 r.raw_flags _,
          get_u16_form r.stream_id _ v.stream_id_fits,
          get_u32_form r.seq _ v.seq_fits,
          get_u32_form r.ack_seq _ v.ack_seq_fits,
          get_u32_form r.ack_bitmap _ v.ack_bitmap_fits,
          get_u16_form r.payload_len _ v.payload_len_fits,
          w.copy-slice 12 r.nonce rest v.nonce_fits,
        )
        refl

  -- `decode` on a buffer that is long enough, by the packet type that stands in it.
  unfoldable pub decoded : Raw → List ℕ → Option (PacketHeader w.Flags) × List ℕ
  decoded r rest = elim (packet_type_from_u8 r.raw_type) [
    | none ↦ (none, tail_bytes r rest)
    | some t ↦ (some (header_of w.from_bits_retain t r), rest)
  ]

  raw_bytes_long :
      (r : Raw) (rest : List ℕ)
      → length r.nonce ≡ 12
      → ltb (w.remaining (raw_bytes r rest)) 38 ≡ false
  raw_bytes_long r rest h =
      rw (w.remaining-length (raw_bytes r rest)) (ground (arith, length-raw_bytes r rest h))

  pub decode-raw_bytes :
      (r : Raw) (rest : List ℕ) → Fits r → decode w (raw_bytes r rest) ≡ decoded r rest
  unfolding decode decoded
  decode-raw_bytes r rest v =
      let u64 = get_u64_form r.conn_id (r.raw_type ∷ tail_bytes r rest) v.conn_id_fits in
      let u8 = w.get-u8 r.raw_type (tail_bytes r rest) in
      rw (raw_bytes_long r rest v.nonce_fits, u64, u8)
        (elim (Option-cases (packet_type_from_u8 r.raw_type)) [
          | inl e ↦ rw (e, decoded) (rw (u64, u8) refl)
          | inr (t, e) ↦ rw (e, decoded) (rw (u64, u8) (decode_rest-tail_bytes t r rest v))
        ])

  -- The numbers in the header that `encode` writes.
  unfoldable pub raw_of : PacketHeader w.Flags → Raw
  raw_of h = record {
    conn_id = h.conn_id;
    raw_type = packet_type_code h.pkt_type;
    raw_flags = w.bits h.flags;
    stream_id = h.stream_id;
    seq = h.seq;
    ack_seq = h.ack_seq;
    ack_bitmap = h.ack_bitmap;
    payload_len = h.payload_len;
    nonce = h.nonce;
  }

  pub raw_of-Fits : (h : PacketHeader w.Flags) → IsValid h → Fits (raw_of h)
  unfolding raw_of
  raw_of-Fits h v = record {
    conn_id_fits = v.conn_id_u64;
    raw_flags_fits = w.bits-lt h.flags;
    stream_id_fits = v.stream_id_u16;
    seq_fits = v.seq_u32;
    ack_seq_fits = v.ack_seq_u32;
    ack_bitmap_fits = v.ack_bitmap_u32;
    payload_len_fits = v.payload_len_u16;
    nonce_fits = v.nonce_12;
  }

  pub encode-raw_bytes :
      (h : PacketHeader w.Flags) (buf rest : List ℕ)
      → encode w h buf ++ rest ≡ buf ++ raw_bytes (raw_of h) rest
  unfolding encode raw_of
  encode-raw_bytes h buf rest =
      simp (w.put-u8, w.put-u16, w.put-u32, w.put-u64, w.put-slice, append_assoc) refl
