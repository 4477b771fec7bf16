-- ===== src/Frame/Cut.antt =====
-- Bytes that are long enough, cut into the fields of a header (crates/protocol/src/frame.rs).
use lan_link.Prelude.{ℕ, ◌+◌, ◌^◌, ◌<◌, ◌≤◌, ◌≡◌, ap, ◌∙◌, List, ◌∷◌, ◌++◌, length, arith}
use lan_link.Prelude.Bytes.{le_bytes, AllBytes, cut, cut_le, cut_u8}
use lan_link.Frame.Laws.{Raw, Fits, raw_bytes}

-- Every buffer of 38 bytes or more is the bytes of some numbers, and what follows them.
pub record Parts (bs : List ℕ) : Type 0 where
  pub raw : Raw
  pub rest : List ℕ
  pub whole : bs ≡ raw_bytes raw rest
  pub fits : Fits raw

shrink : (n m : ℕ) (xs ys : List ℕ) → length xs + n ≡ length ys → n + m ≤ length ys → m ≤ length xs
shrink n m xs ys e h = omega arith

weaken : (n m : ℕ) {k : ℕ} → n + m ≤ k → n ≤ k
weaken n m h = omega arith

-- The last four fields of a header, cut from the front of bytes that are long enough.
record Tail (bs : List ℕ) : Type 0 where
  ack_seq : ℕ
  ack_bitmap : ℕ
  payload_len : ℕ
  nonce : List ℕ
  rest : List ℕ
  whole :
      bs
      ≡ le_bytes 4 ack_seq ++ (le_bytes 4 ack_bitmap ++ (le_bytes 2 payload_len ++ (nonce ++ rest)))
  ack_seq_fits : ack_seq < 256 ^ 4
  ack_bitmap_fits : ack_bitmap < 256 ^ 4
  payload_len_fits : payload_len < 256 ^ 2
  nonce_fits : length nonce ≡ 12

cut-Tail : (bs : List ℕ) → AllBytes bs → 22 ≤ length bs → Tail bs
cut-Tail bs a h =
    let c₁ = cut_le 4 bs a (weaken 4 18 h) in
    let n₂ = shrink 4 18 c₁.rest bs c₁.rest_length h in
    let c₂ = cut_le 4 c₁.rest c₁.rest_bytes (weaken 4 14 n₂) in
    let n₃ = shrink 4 14 c₂.rest c₁.rest c₂.rest_length n₂ in
    let c₃ = cut_le 2 c₂.rest c₂.rest_bytes (weaken 2 12 n₃) in
    let n₄ = shrink 2 12 c₃.rest c₂.rest c₃.rest_length n₃ in
    let c₄ = cut 12 c₃.rest c₃.rest_bytes (weaken 12 0 n₄) in
    record {
      ack_seq = c₁.value;
      ack_bitmap = c₂.value;
      payload_len = c₃.value;
      nonce = c₄.front;
      rest = c₄.rest;
      whole =
          c₁.whole
          ∙ ap (λ l. le_bytes 4 c₁.value ++ l)
              (c₂.whole
                ∙ ap (λ l. le_bytes 4 c₂.value ++ l)
                    (c₃.whole ∙ ap (λ l. le_bytes 2 c₃.value ++ l) c₄.whole));
      ack_seq_fits = c₁.fits;
      ack_bitmap_fits = c₂.fits;
      payload_len_fits = c₃.fits;
      nonce_fits = c₄.front_length;
    }

-- The fields before them.
record Start (bs : List ℕ) : Type 0 where
  conn_id : ℕ
  raw_type : ℕ
  raw_flags : ℕ
  stream_id : ℕ
  seq : ℕ
  left : List ℕ
  whole :
      bs
      ≡ le_bytes 8 conn_id
        ++ (raw_type ∷ (raw_flags ∷ (le_bytes 2 stream_id ++ (le_bytes 4 seq ++ left))))
  conn_id_fits : conn_id < 256 ^ 8
  raw_flags_fits : raw_flags < 256
  stream_id_fits : stream_id < 256 ^ 2
  seq_fits : seq < 256 ^ 4
  left_bytes : AllBytes left
  left_length : 22 ≤ length left

cut-Start : (bs : List ℕ) → AllBytes bs → 38 ≤ length bs → Start bs
cut-Start bs a h =
    let c₁ = cut_le 8 bs a (weaken 8 30 h) in
    let n₂ = shrink 8 30 c₁.rest bs c₁.rest_length h in
    let c₂ = cut_u8 c₁.rest c₁.rest_bytes (weaken 1 29 n₂) in
    let n₃ = shrink 1 29 c₂.rest c₁.rest c₂.rest_length n₂ in
    let c₃ = cut_u8 c₂.rest c₂.rest_bytes (weaken 1 28 n₃) in
    let n₄ = shrink 1 28 c₃.rest c₂.rest c₃.rest_length n₃ in
    let c₄ = cut_le 2 c₃.rest c₃.rest_bytes (weaken 2 26 n₄) in
    let n₅ = shrink 2 26 c₄.rest c₃.rest c₄.rest_length n₄ in
    let c₅ = cut_le 4 c₄.rest c₄.rest_bytes (weaken 4 22 n₅) in
    record {
      conn_id = c₁.value;
      raw_type = c₂.value;
      raw_flags = c₃.value;
      stream_id = c₄.value;
      seq = c₅.value;
      left = c₅.rest;
      whole =
          c₁.whole
          ∙ ap (λ l. le_bytes 8 c₁.value ++ l)
              (c₂.whole
                ∙ ap (λ l. c₂.value ∷ l)
                    (c₃.whole
                      ∙ ap (λ l. c₃.value ∷ l)
                          (c₄.whole ∙ ap (λ l. le_bytes 2 c₄.value ++ l) c₅.whole)));
      conn_id_fits = c₁.fits;
      raw_flags_fits = c₃.fits;
      stream_id_fits = c₄.fits;
      seq_fits = c₅.fits;
      left_bytes = c₅.rest_bytes;
      left_length = shrink 4 22 c₅.rest c₄.rest c₅.rest_length n₅;
    }

pub cut_raw : (bs : List ℕ) → AllBytes bs → 38 ≤ length bs → Parts bs
cut_raw bs a h =
    let s = cut-Start bs a h in
    let t = cut-Tail s.left s.left_bytes s.left_length in
    record {
      raw = record {
        conn_id = s.conn_id;
        raw_type = s.raw_type;
        raw_flags = s.raw_flags;
        stream_id = s.stream_id;
        seq = s.seq;
        ack_seq = t.ack_seq;
        ack_bitmap = t.ack_bitmap;
        payload_len = t.payload_len;
        nonce = t.nonce;
      };
      rest = t.rest;
      whole =
          s.whole
          ∙ ap
              (λ l.
                le_bytes 8 s.conn_id
                ++ (s.raw_type
                    ∷ (s.raw_flags ∷ (le_bytes 2 s.stream_id ++ (le_bytes 4 s.seq ++ l)))))
              t.whole;
      fits = record {
        conn_id_fits = s.conn_id_fits;
        raw_flags_fits = s.raw_flags_fits;
        stream_id_fits = s.stream_id_fits;
        seq_fits = s.seq_fits;
        ack_seq_fits = t.ack_seq_fits;
        ack_bitmap_fits = t.ack_bitmap_fits;
        payload_len_fits = t.payload_len_fits;
        nonce_fits = t.nonce_fits;
      };
    }
