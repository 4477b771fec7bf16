-- ===== src/Prelude/Words.antt =====
-- Unsigned machine words: `wrapping_add`, `wrapping_sub` and `saturating_add` of the standard
-- library, and the test of one bit.
use Prim.Native.Nat.{
  ℕ, zero, suc, ◌+◌, ◌-◌, ◌*◌, ◌/◌, ◌%◌, ◌^◌, ◌≤◌, ◌<◌, min, bit_and, digits, bit_and-bitwise,
}
use mathlib.Core.Path.{◌≡◌, refl, ap, sym, ◌∙◌}
use mathlib.Core.Option.{Option, none, some}
use lan_link.Prelude.Tests.{ltb, if◌then◌else◌}
use native.Mathlib.Omega.{arith}
use native.Mathlib.Nat.{pow-suc, zero-div, mul_comm, div-div-eq-div-mul}

abbrev pub u16_mod : ℕ
u16_mod = 2 ^ 16

abbrev pub u32_mod : ℕ
u32_mod = 2 ^ 32

abbrev pub u64_mod : ℕ
u64_mod = 2 ^ 64

abbrev pub wrapping_add_u32 : ℕ → ℕ → ℕ
wrapping_add_u32 a b = (a + b) % u32_mod

abbrev pub wrapping_sub_u32 : ℕ → ℕ → ℕ
wrapping_sub_u32 a b = (a + u32_mod - b) % u32_mod

abbrev pub saturating_add_u32 : ℕ → ℕ → ℕ
saturating_add_u32 a b = min (a + b) (u32_mod - 1)

-- The digits of `bit_and`, with any fuel from the first argument up.
abbrev and_run : ℕ → ℕ → ℕ → ℕ
and_run n a b = digits (λ _. zero) min n a b

and_run_enough : (n k a b : ℕ) → a ≤ n → a ≤ k → and_run n a b ≡ and_run k a b
and_run_enough zero zero a b h g = refl
and_run_enough zero (suc k) zero b h g = refl
and_run_enough zero (suc k) (suc a) b h g = absurd (omega arith)
and_run_enough (suc n) zero zero b h g = refl
and_run_enough (suc n) zero (suc a) b h g = absurd (omega arith)
and_run_enough (suc n) (suc k) zero b h g = refl
and_run_enough (suc n) (suc k) (suc a) b h g =
    omega (arith, and_run_enough n k (suc a / 2) (b / 2) (omega arith) (omega arith))

bit_and-suc :
    (a b : ℕ) → bit_and (suc a) b ≡ bit_and (suc a / 2) (b / 2) * 2 + min (suc a % 2) (b % 2)
bit_and-suc a b = omega (
  arith,
  bit_and-bitwise (suc a) b,
  bit_and-bitwise (suc a / 2) (b / 2),
  and_run_enough a (suc a / 2) (suc a / 2) (b / 2) (omega arith) (omega arith),
)

pub zero-bit_and : (b : ℕ) → bit_and 0 b ≡ 0
zero-bit_and b = bit_and-bitwise 0 b

bit_and-zero_below : (n a : ℕ) → a ≤ n → bit_and a 0 ≡ 0
bit_and-zero_below n zero h = refl
bit_and-zero_below zero (suc a) h = absurd (omega arith)
bit_and-zero_below (suc n) (suc a) h =
    omega (arith, bit_and-suc a 0, bit_and-zero_below n (suc a / 2) (omega arith))

two_halves : (a b : ℕ) → bit_and a (b * 2 / 2) ≡ bit_and a b
two_halves a b = let e : b * 2 / 2 ≡ b = omega arith in ap (bit_and a) e

-- `a & (1 << k)` is the bit of `a` at `k`, in its place.
pub bit_and-pow : (k a : ℕ) → bit_and a (2 ^ k) ≡ a / 2 ^ k % 2 * 2 ^ k
bit_and-pow k zero = rw (zero-bit_and (2 ^ k), zero-div (2 ^ k)) (omega arith)
bit_and-pow zero (suc a) =
    omega (arith, bit_and-suc a 1, bit_and-zero_below (suc a) (suc a / 2) (omega arith))
bit_and-pow (suc k) (suc a) =
    let half : 2 ^ suc k ≡ 2 ^ k * 2 = pow-suc 2 k in
    let quot : suc a / 2 ^ suc k ≡ suc a / 2 / 2 ^ k =
      ap (◌/◌ (suc a)) (half ∙ mul_comm (2 ^ k) 2) ∙ sym (div-div-eq-div-mul (suc a) 2 (2 ^ k)) in
    rw (quot, half)
      (omega (
        arith,
        ap (bit_and (suc a)) half,
        ap (λ (t : ℕ). bit_and (suc a / 2) (t / 2)) half,
        bit_and-suc a (2 ^ k * 2),
        bit_and-pow k (suc a / 2),
        two_halves (suc a / 2) (2 ^ k),
      ))

pub two_pow_pos : (k : ℕ) → 0 < 2 ^ k
two_pow_pos zero = omega arith
two_pow_pos (suc k) = omega (arith, two_pow_pos k, pow-suc 2 k)

-- `1u32.checked_shl(k)`.
abbrev pub checked_shl_one : ℕ → Option ℕ
checked_shl_one k = if ltb k 32 then some (2 ^ k) else none

-- Seconds in nanoseconds.
abbrev pub secs : ℕ → ℕ
secs n = n * 1_000_000_000
