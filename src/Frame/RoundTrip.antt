-- ===== src/Frame/RoundTrip.antt =====
-- What the header's encoder and decoder promise each other (crates/protocol/src/frame.rs).
use lan_link.Prelude.{
  ℕ, ◌+◌, ◌<◌, ◌≡◌, refl, sym, ap, subst, ◌∙◌, ◌↔◌, ◌⊎◌, inl, inr, List, [], ◌∷◌, ◌++◌, length,
  drop, drop-append, dec_lt, length-append, append-nil, true, none, some, Option-cases, ltb, arith,
}
use lan_link.Prelude.Bytes.{le_bytes, length-le_bytes, AllBytes}
use lan_link.Frame.Wire.{Wire}
use lan_link.Frame.Types.{
  PacketType, packet_type_from_u8, from_u8-code, code_of_from_u8, from_u8-none_iff,
}
use lan_link.Frame.Header.{PacketHeader, IsValid, encode, decode}
use lan_link.Frame.Laws.{
  Raw, Fits, tail_bytes, raw_bytes, length-raw_bytes, header_of, raw_of, raw_of-Fits,
  encode-raw_bytes, decoded, decode-raw_bytes,
}
use lan_link.Frame.Cut.{Parts, cut_raw}

-- The first byte, or the number if there is none.
abbrev pub head_or : ℕ → List ℕ → ℕ
head_or d [] = d
head_or d (x ∷ xs) = x

header_of-IsValid :
    {F : Type 0} (flags : ℕ → F) (t : PacketType) (r : Raw) → Fits r → IsValid (header_of flags t r)
header_of-IsValid flags t r f = record {
  conn_id_u64 = f.conn_id_fits;
  stream_id_u16 = f.stream_id_fits;
  seq_u32 = f.seq_fits;
  ack_seq_u32 = f.ack_seq_fits;
  ack_bitmap_u32 = f.ack_bitmap_fits;
  payload_len_u16 = f.payload_len_fits;
  nonce_12 = f.nonce_fits;
}

module _ (w : Wire) where
  -- A valid header is decoded from its encoding, whatever follows it, and exactly its bytes are
  -- taken from the buffer.
  pub decode-encode :
      (h : PacketHeader w.Flags) (rest : List ℕ)
      → IsValid h
      → decode w (encode w h [] ++ rest) ≡ (some h, rest)
  unfolding decoded raw_of
  decode-encode h rest v =
      ap (decode w) (encode-raw_bytes w h [] rest)
      ∙ decode-raw_bytes w (raw_of w h) rest (raw_of-Fits w h v)
      ∙ rw (from_u8-code h.pkt_type, w.from_bits_retain-bits h.flags, decoded) refl

  -- The header takes 38 bytes.
  pub length-encode :
      (h : PacketHeader w.Flags) (buf : List ℕ)
      → IsValid h
      → length (encode w h buf) ≡ length buf + 38
  unfolding raw_of
  length-encode h buf v = omega (
    arith,
    ap length (sym (append-nil (encode w h buf)) ∙ encode-raw_bytes w h buf []),
    length-append buf (raw_bytes (raw_of w h) []),
    length-raw_bytes (raw_of w h) [] v.nonce_12,
  )

  decoded-raw_of :
      (r : Raw) (t : PacketType) (rest : List ℕ)
      → Fits r
      → packet_type_from_u8 r.raw_type ≡ some t
      → raw_bytes (raw_of w (header_of w.from_bits_retain t r)) rest ≡ raw_bytes r rest
  unfolding raw_of
  decoded-raw_of r t rest f e =
      rw (code_of_from_u8 r.raw_type t e, w.bits-from_bits_retain r.raw_flags f.raw_flags_fits) refl

  decoded-eq-some :
      (r : Raw) (rest₀ rest : List ℕ) (h : PacketHeader w.Flags)
      → decoded w r rest₀ ≡ (some h, rest)
      → (t : PacketType) × (packet_type_from_u8 r.raw_type ≡ some t)
        × (header_of w.from_bits_retain t r ≡ h)
        × (rest₀ ≡ rest)
  unfolding decoded
  decoded-eq-some r rest₀ rest h e = elim (Option-cases (packet_type_from_u8 r.raw_type)) [
    | inl n ↦ absurd (ground arith)
    | inr (t, s) ↦ (t, s, ground arith, ground arith)
  ]

  decode_short : (bs : List ℕ) → length bs < 38 → decode w bs ≡ (none, bs)
  unfolding decode
  decode_short bs h =
      let short : ltb (w.remaining bs) 38 ≡ true = rw (w.remaining-length bs) (ground arith) in
      rw short

  decode-Parts : (bs : List ℕ) (p : Parts bs) → decode w bs ≡ decoded w p.raw p.rest
  decode-Parts bs p = ap (decode w) p.whole ∙ decode-raw_bytes w p.raw p.rest p.fits

  encode-decode_long :
      (bs rest : List ℕ) (h : PacketHeader w.Flags) (p : Parts bs)
      → decode w bs ≡ (some h, rest)
      → (encode w h [] ++ rest ≡ bs) × IsValid h
  encode-decode_long bs rest h p e =
      let (t, kind, built, same) =
        decoded-eq-some p.raw p.rest rest h (sym (decode-Parts bs p) ∙ e) in
      let written : encode w h [] ++ rest ≡ raw_bytes p.raw p.rest =
        encode-raw_bytes w h [] rest
        ∙ ap (λ g. raw_bytes (raw_of w g) rest) (sym built)
        ∙ decoded-raw_of p.raw t rest p.fits kind
        ∙ ap (raw_bytes p.raw) (sym same) in
      (
        written ∙ sym p.whole,
        subst IsValid built (header_of-IsValid w.from_bits_retain t p.raw p.fits),
      )

  -- What is decoded was read from the bytes that encoding it gives, and fits its widths.
  pub encode-decode :
      (bs rest : List ℕ) (h : PacketHeader w.Flags)
      → AllBytes bs
      → decode w bs ≡ (some h, rest)
      → (encode w h [] ++ rest ≡ bs) × IsValid h
  encode-decode bs rest h a e = elim (dec_lt (length bs) 38) [
    | yes short ↦ absurd (cc (decode_short bs short))
    | no long ↦ encode-decode_long bs rest h (cut_raw bs a (omega arith)) e
  ]

  decoded-none_iff : (r : Raw) (rest : List ℕ) → ((decoded w r rest).0 ≡ none) ↔ (5 < r.raw_type)
  unfolding decoded
  decoded-none_iff r rest = ground (arith, from_u8-none_iff r.raw_type)

  -- A buffer is refused exactly when it has fewer than 38 bytes or its byte at 8, behind the
  -- connection id, is above 5; one of fewer than 38 bytes is left as it is.
  pub decode-none_iff :
      (bs : List ℕ)
      → AllBytes bs
      → (((decode w bs).0 ≡ none) ↔ ((length bs < 38) ⊎ (5 < head_or 0 (drop 8 bs))))
        × (length bs < 38 → decode w bs ≡ (none, bs))
  decode-none_iff bs a = elim (dec_lt (length bs) 38) [
    | yes short ↦ ((λ e. inl short, λ e. ap (λ r. r.0) (decode_short bs short)), decode_short bs)
    | no long ↦
        let p = cut_raw bs a (omega arith) in
        let kind : head_or 0 (drop 8 bs) ≡ p.raw.raw_type = ap (head_or 0) (
          ap (drop 8) p.whole
          ∙ drop-append (le_bytes 8 p.raw.conn_id) (p.raw.raw_type ∷ tail_bytes p.raw p.rest) 8
              (length-le_bytes 8 p.raw.conn_id)) in
        let both = decoded-none_iff p.raw p.rest in
        let same = ap (λ r. r.0) (decode-Parts bs p) in
        (
          (
            λ e. inr (subst (λ t. 5 < t) (sym kind) (both.0 (sym same ∙ e))),
            λ e. elim e [
              | inl short ↦ absurd (long short)
              | inr above ↦ same ∙ both.1 (subst (λ t. 5 < t) kind above)
            ],
          ),
          λ short. absurd (long short),
        )
  ]
