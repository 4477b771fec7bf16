-- ===== src/Prelude/Bytes.antt =====
-- Bytes of unsigned integers in the two byte orders. A byte is a number below 256.
use native.Mathlib.Decide.{ℕ_discrete}
use Prim.Native.Nat.{ℕ, zero, suc, ◌+◌, ◌*◌, ◌/◌, ◌%◌, ◌^◌, ◌<◌, ◌≤◌}
use mathlib.Core.Path.{◌≡◌, refl, ap, sym, subst, ◌∙◌}
use mathlib.Core.List.{List, [], ◌∷◌, ◌++◌, reverse, reverse-reverse, reverse-cons}
use native.Mathlib.Omega.{arith}
use native.Mathlib.Nat.{pow-suc}
use lan_link.Prelude.Lists.{
  All, length, length-append, take, drop, take-append-drop, length-take, length-drop,
}

-- `n.to_le_bytes()` of a `w`-byte integer, and back.
unfoldable pub le_bytes : ℕ → ℕ → List ℕ
le_bytes zero n = []
le_bytes (suc w) n = (n % 256) ∷ le_bytes w (n / 256)

unfoldable pub from_le : List ℕ → ℕ
from_le [] = 0
from_le (b ∷ bs) = b + 256 * from_le bs

-- `n.to_be_bytes()`, and back.
abbrev pub be_bytes : ℕ → ℕ → List ℕ
be_bytes w n = reverse (le_bytes w n)

abbrev pub from_be : List ℕ → ℕ
from_be bs = from_le (reverse bs)

pub length-le_bytes : (w n : ℕ) → length (le_bytes w n) ≡ w
unfolding le_bytes
length-le_bytes zero n = refl
length-le_bytes (suc w) n = ap suc (length-le_bytes w (n / 256))

pub from_le-le_bytes : (w n : ℕ) → n < 256 ^ w → from_le (le_bytes w n) ≡ n
unfolding le_bytes from_le
from_le-le_bytes zero n h = omega arith
from_le-le_bytes (suc w) n h =
    omega (arith, from_le-le_bytes w (n / 256) (omega (arith, pow-suc 256 w)))

pub length-reverse : (xs : List ℕ) → length (reverse xs) ≡ length xs
length-reverse [] = refl
length-reverse (x ∷ xs) =
    omega
      (arith, ap length (reverse-cons x xs), length-append (reverse xs) (x ∷ []), length-reverse xs)

pub length-be_bytes : (w n : ℕ) → length (be_bytes w n) ≡ w
length-be_bytes w n = length-reverse (le_bytes w n) ∙ length-le_bytes w n

pub from_be-be_bytes : (w n : ℕ) → n < 256 ^ w → from_be (be_bytes w n) ≡ n
from_be-be_bytes w n h = ap from_le (reverse-reverse (le_bytes w n)) ∙ from_le-le_bytes w n h

-- Every element is a byte.
abbrev pub AllBytes : List ℕ → Type 0
AllBytes = All (λ b. b < 256)

-- A decoded integer fits its width, and its bytes are those that were read.
pub from_le-lt : (bs : List ℕ) → AllBytes bs → from_le bs < 256 ^ length bs
unfolding from_le
from_le-lt [] a = omega arith
from_le-lt (b ∷ bs) a = omega (arith, from_le-lt bs a.1, pow-suc 256 (length bs), a.0)

pub le_bytes-from_le : (bs : List ℕ) → AllBytes bs → le_bytes (length bs) (from_le bs) ≡ bs
unfolding le_bytes from_le
le_bytes-from_le [] a = refl
le_bytes-from_le (b ∷ bs) a =
    let low : (b + 256 * from_le bs) % 256 ≡ b = omega (arith, a.0) in
    let high : (b + 256 * from_le bs) / 256 ≡ from_le bs = omega (arith, a.0) in
    rw (low, high) (ap (◌∷◌ b) (le_bytes-from_le bs a.1))

AllBytes-split : (n : ℕ) (bs : List ℕ) → AllBytes bs → AllBytes (take n bs) × AllBytes (drop n bs)
AllBytes-split zero bs a = (tt, a)
AllBytes-split (suc n) [] a = (tt, tt)
AllBytes-split (suc n) (b ∷ bs) a = let (l, r) = AllBytes-split n bs a.1 in ((a.0, l), r)

-- `bs` split after `n` bytes.
pub record Cut (n : ℕ) (bs : List ℕ) : Type 0 where
  pub front : List ℕ
  pub rest : List ℕ
  pub whole : bs ≡ front ++ rest
  pub front_length : length front ≡ n
  pub rest_length : length rest + n ≡ length bs
  pub front_bytes : AllBytes front
  pub rest_bytes : AllBytes rest

pub cut : (n : ℕ) (bs : List ℕ) → AllBytes bs → n ≤ length bs → Cut n bs
cut n bs a h = record {
  front = take n bs;
  rest = drop n bs;
  whole = sym (take-append-drop n bs);
  front_length = omega (arith, length-take n bs);
  rest_length = omega (arith, length-drop n bs);
  front_bytes = (AllBytes-split n bs a).0;
  rest_bytes = (AllBytes-split n bs a).1;
}

-- `bs` begins with the little-endian bytes of a `n`-byte integer.
pub record CutLe (n : ℕ) (bs : List ℕ) : Type 0 where
  pub value : ℕ
  pub rest : List ℕ
  pub whole : bs ≡ le_bytes n value ++ rest
  pub fits : value < 256 ^ n
  pub rest_length : length rest + n ≡ length bs
  pub rest_bytes : AllBytes rest

pub cut_le : (n : ℕ) (bs : List ℕ) → AllBytes bs → n ≤ length bs → CutLe n bs
cut_le n bs a h =
    let c = cut n bs a h in
    record {
      value = from_le c.front;
      rest = c.rest;
      whole =
          subst (λ k. bs ≡ le_bytes k (from_le c.front) ++ c.rest) c.front_length
            (rw (le_bytes-from_le c.front c.front_bytes) c.whole);
      fits =
          subst (λ k. from_le c.front < 256 ^ k) c.front_length (from_le-lt c.front c.front_bytes);
      rest_length = c.rest_length;
      rest_bytes = c.rest_bytes;
    }

-- `bs` begins with a byte.
pub record CutU8 (bs : List ℕ) : Type 0 where
  pub value : ℕ
  pub rest : List ℕ
  pub whole : bs ≡ value ∷ rest
  pub fits : value < 256
  pub rest_length : length rest + 1 ≡ length bs
  pub rest_bytes : AllBytes rest

pub cut_u8 : (bs : List ℕ) → AllBytes bs → 1 ≤ length bs → CutU8 bs
cut_u8 [] a h = absurd (omega arith)
cut_u8 (b ∷ bs) a h = record {
  value = b;
  rest = bs;
  whole = refl;
  fits = a.0;
  rest_length = omega arith;
  rest_bytes = a.1;
}

-- Equality of byte strings.
unfoldable pub both_eq :
    {x y : ℕ} {xs ys : List ℕ} → Dec (x ≡ y) → Dec (xs ≡ ys) → Dec (x ∷ xs ≡ y ∷ ys)
both_eq (yes p) (yes q) = yes (cc)
both_eq (yes p) (no n) = no (λ e. n (cc))
both_eq (no n) q = no (λ e. n (cc))

unfoldable pub bytes_eq : Discrete (List ℕ)
bytes_eq [] [] = yes refl
bytes_eq [] (y ∷ ys) = no (λ e. cc)
bytes_eq (x ∷ xs) [] = no (λ e. cc)
bytes_eq (x ∷ xs) (y ∷ ys) = both_eq (ℕ_discrete x y) (bytes_eq xs ys)
