-- ===== src/Tests/ReferenceWire.antt =====
-- A value of `Wire`: plain functions that meet its documented behaviour (crates `bytes`, `bitflags`).
use mathlib.Core.HLevel.{Σ_prop_path}
use mathlib.Core.Path.{ap₂}
use native.Mathlib.Bridge.{le_prop}
use lan_link.Prelude.{
  ℕ, ◌%◌, ◌<◌, ◌≡◌, refl, List, [], ◌∷◌, ◌++◌, length, take, drop, take-append, drop-append, arith,
}
use lan_link.Prelude.Bytes.{le_bytes, from_le}
use lan_link.Frame.Wire.{Wire}

unfoldable pub get_le : ℕ → List ℕ → ℕ × List ℕ
get_le n buf = (from_le (take n buf), drop n buf)

pub get_le-append :
    (n : ℕ) (bs rest : List ℕ) → length bs ≡ n → get_le n (bs ++ rest) ≡ (from_le bs, rest)
unfolding get_le
get_le-append n bs rest h = rw (take-append bs rest n h, drop-append bs rest n h)

unfoldable pub get_byte : List ℕ → ℕ × List ℕ
get_byte [] = (0, [])
get_byte (b ∷ bs) = (b, bs)

-- A set of flags as its bits.
abbrev pub FlagBits : Type 0
FlagBits = (n : ℕ) × (n < 256)

unfoldable pub retain : ℕ → FlagBits
retain n = (n % 256, omega arith)

pub retain-lt : (n : ℕ) → n < 256 → (retain n).0 ≡ n
unfolding retain
retain-lt n h = omega arith

pub retain-bits : (f : FlagBits) → retain f.0 ≡ f
unfolding retain
retain-bits f = Σ_prop_path (λ n. le_prop) (omega (arith, f.1))

unfoldable pub wire : Wire
unfolding get_le get_byte retain
wire = record {
  put_u8 = λ n buf. buf ++ (n ∷ []);
  put_u16_le = λ n buf. buf ++ le_bytes 2 n;
  put_u32_le = λ n buf. buf ++ le_bytes 4 n;
  put_u64_le = λ n buf. buf ++ le_bytes 8 n;
  put_slice = λ bs buf. buf ++ bs;
  remaining = length;
  get_u8 = get_byte;
  get_u16_le = get_le 2;
  get_u32_le = get_le 4;
  get_u64_le = get_le 8;
  copy_to_slice = λ n buf. (take n buf, drop n buf);
  Flags = FlagBits;
  bits = λ f. f.0;
  from_bits_retain = retain;
  reliable = retain 1;
  no_flags = retain 0;
  put-u8 = λ n buf. refl;
  put-u16 = λ n buf. refl;
  put-u32 = λ n buf. refl;
  put-u64 = λ n buf. refl;
  put-slice = λ bs buf. refl;
  remaining-length = λ buf. refl;
  get-u8 = λ b rest. refl;
  get-u16 = get_le-append 2;
  get-u32 = get_le-append 4;
  get-u64 = get_le-append 8;
  copy-slice =
      λ n bs rest h. ap₂ (λ l r. (l, r)) (take-append bs rest n h) (drop-append bs rest n h);
  bits-from_bits_retain = retain-lt;
  from_bits_retain-bits = retain-bits;
  bits-lt = λ f. f.1;
  bits-reliable = refl;
  bits-no_flags = refl;
}
