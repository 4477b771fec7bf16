-- ===== src/Frame/Wire.antt =====
-- What crates/protocol/src/frame.rs takes from the crates `bytes` (`Buf`, `BufMut`) and `bitflags`.
-- A buffer is the list of its bytes; reading takes from the front and writing appends at the end.
use lan_link.Prelude.{ℕ, ◌<◌, ◌≡◌, List, [], ◌∷◌, ◌++◌, length}
use lan_link.Prelude.Bytes.{le_bytes, from_le}

pub record Wire : Type 1 where
  -- `BufMut`: each call writes the value in little-endian order at the end of the buffer.
  pub put_u8 : ℕ → List ℕ → List ℕ
  pub put_u16_le : ℕ → List ℕ → List ℕ
  pub put_u32_le : ℕ → List ℕ → List ℕ
  pub put_u64_le : ℕ → List ℕ → List ℕ
  pub put_slice : List ℕ → List ℕ → List ℕ
  -- `Buf`: each call reads from the front and advances past what it read.
  pub remaining : List ℕ → ℕ
  pub get_u8 : List ℕ → ℕ × List ℕ
  pub get_u16_le : List ℕ → ℕ × List ℕ
  pub get_u32_le : List ℕ → ℕ × List ℕ
  pub get_u64_le : List ℕ → ℕ × List ℕ
  -- `copy_to_slice` into an array of the given size.
  pub copy_to_slice : ℕ → List ℕ → List ℕ × List ℕ
  -- The type that `bitflags!` makes of `Flags`, its conversions, `RELIABLE` and `empty()`.
  pub Flags : Type 0
  pub bits : Flags → ℕ
  pub from_bits_retain : ℕ → Flags
  pub reliable : Flags
  pub no_flags : Flags
  -- Documented behaviour.
  pub put-u8 : (n : ℕ) (buf : List ℕ) → put_u8 n buf ≡ buf ++ (n ∷ [])
  pub put-u16 : (n : ℕ) (buf : List ℕ) → put_u16_le n buf ≡ buf ++ le_bytes 2 n
  pub put-u32 : (n : ℕ) (buf : List ℕ) → put_u32_le n buf ≡ buf ++ le_bytes 4 n
  pub put-u64 : (n : ℕ) (buf : List ℕ) → put_u64_le n buf ≡ buf ++ le_bytes 8 n
  pub put-slice : (bs buf : List ℕ) → put_slice bs buf ≡ buf ++ bs
  pub remaining-length : (buf : List ℕ) → remaining buf ≡ length buf
  pub get-u8 : (b : ℕ) (rest : List ℕ) → get_u8 (b ∷ rest) ≡ (b, rest)
  pub get-u16 : (bs rest : List ℕ) → length bs ≡ 2 → get_u16_le (bs ++ rest) ≡ (from_le bs, rest)
  pub get-u32 : (bs rest : List ℕ) → length bs ≡ 4 → get_u32_le (bs ++ rest) ≡ (from_le bs, rest)
  pub get-u64 : (bs rest : List ℕ) → length bs ≡ 8 → get_u64_le (bs ++ rest) ≡ (from_le bs, rest)
  pub copy-slice :
      (n : ℕ) (bs rest : List ℕ) → length bs ≡ n → copy_to_slice n (bs ++ rest) ≡ (bs, rest)
  pub bits-from_bits_retain : (n : ℕ) → n < 256 → bits (from_bits_retain n) ≡ n
  pub from_bits_retain-bits : (f : Flags) → from_bits_retain (bits f) ≡ f
  pub bits-lt : (f : Flags) → bits f < 256
  pub bits-reliable : bits reliable ≡ 1
  pub bits-no_flags : bits no_flags ≡ 0
