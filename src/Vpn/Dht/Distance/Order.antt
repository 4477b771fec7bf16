-- ===== src/Vpn/Dht/Distance/Order.antt =====
-- The order of distances as numbers of 256 bits (crates/vpn/src/vpn/dht.rs).
use Prim.Native.Nat.{compare, Ordering}
use mathlib.Core.List.{reverse, reverse-cons}
use native.Mathlib.Nat.{pow-suc, suc-mul, mul_assoc, mul-le-mul_right}
use lan_link.Prelude.{
  ℕ, ◌+◌, ◌*◌, ◌^◌, ◌<◌, ◌≡◌, refl, ap, sym, ◌∙◌, List, [], ◌∷◌, ◌++◌, length, arith,
}
use lan_link.Prelude.Bytes.{from_le, from_be, AllBytes, length-reverse}
use lan_link.Vpn.Dht.Distance.{cmp_xor}

from_le-append : (xs : List ℕ) (b : ℕ) → from_le (xs ++ (b ∷ [])) ≡ from_le xs + b * 256 ^ length xs
unfolding from_le
from_le-append [] b = omega arith
from_le-append (x ∷ xs) b = omega (
  arith,
  from_le-append xs b,
  pow-suc 256 (length xs),
  ap (λ (t : ℕ). b * t) (pow-suc 256 (length xs)),
  ap (λ (t : ℕ). 256 * t) (from_le-append xs b),
  sym (mul_assoc b (256 ^ length xs) 256),
)

-- The first byte counts most.
pub from_be-cons : (b : ℕ) (bs : List ℕ) → from_be (b ∷ bs) ≡ b * 256 ^ length bs + from_be bs
from_be-cons b bs = omega (
  arith,
  ap from_le (reverse-cons b bs),
  from_le-append (reverse bs) b,
  ap (λ (k : ℕ). b * 256 ^ k) (length-reverse bs),
)

pub below : (bs : List ℕ) → AllBytes bs → from_be bs < 256 ^ length bs
unfolding from_le
below [] a = omega arith
below (b ∷ bs) a = grind (arith, from_be-cons b bs, below bs a.1, pow-suc 256 (length bs), a.0)

-- A smaller first byte makes a smaller number, whatever follows.
first_byte : (x y n a b : ℕ) → x < y → a < n → x * n + a < y * n + b
first_byte x y n a b h g = omega (arith, suc-mul x n, mul-le-mul_right n h)

compare_digits :
    (x y n a b : ℕ) (o : Ordering)
    → a < n
    → b < n
    → o ≡ compare a b
    → (elim (compare x y) [
      | Ordering.lt ↦ Ordering.lt
      | Ordering.gt ↦ Ordering.gt
      | Ordering.eq ↦ o
    ])
      ≡ compare (x * n + a) (y * n + b)
compare_digits x y n a b o ha hb e = ground (arith, first_byte x y n a b, first_byte y x n b a)

-- `cmp_xor` compares the distances as numbers.
pub cmp_xor-compare :
    (a b : List ℕ)
    → length a ≡ length b
    → AllBytes a
    → AllBytes b
    → cmp_xor a b ≡ compare (from_be a) (from_be b)
unfolding cmp_xor
cmp_xor-compare [] [] e ha hb = unfold from_le in refl
cmp_xor-compare [] (y ∷ b) e ha hb = absurd (omega arith)
cmp_xor-compare (x ∷ a) [] e ha hb = absurd (omega arith)
cmp_xor-compare (x ∷ a) (y ∷ b) e ha hb =
    let same : 256 ^ length a ≡ 256 ^ length b = ap (λ (k : ℕ). 256 ^ k) (omega arith) in
    let n = 256 ^ length b in
    let la : from_be a < n = omega (arith, below a ha.1, same) in
    let lb = below b hb.1 in
    let va : from_be (x ∷ a) ≡ x * n + from_be a =
      from_be-cons x a ∙ ap (λ (k : ℕ). x * k + from_be a) same in
    let vb = from_be-cons y b in
    let ih = cmp_xor-compare a b (omega arith) ha.1 hb.1 in
    rw (va, vb) (compare_digits x y n (from_be a) (from_be b) (cmp_xor a b) la lb ih)
