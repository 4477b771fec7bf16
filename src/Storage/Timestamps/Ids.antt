-- ===== src/Storage/Timestamps/Ids.antt =====
-- The ids of versions (crates/vpn/src/storage/version.rs): the sequence number is read back.
use lan_link.Prelude.{
  ℕ, zero, suc, ◌+◌, ◌-◌, ◌*◌, ◌/◌, ◌%◌, ◌^◌, ◌<◌, ◌≤◌, ◌≡◌, refl, ap, sym, ◌∙◌, List, [], ◌∷◌,
  ◌++◌, length, ltb, ite, ℕ_discrete, arith,
}
use native.Mathlib.Nat.{pow-suc}
use lan_link.Prelude.Branches.{on_if}
use lan_link.Storage.Timestamps.{decimal, zeros, padded, format_timestamp, version_id_of}

-- The number that digits stand for, after the digits of `n`.
abbrev read : ℕ → List ℕ → ℕ
read n [] = n
read n (d ∷ ds) = read (n * 10 + (d - 48)) ds

-- What follows the first dash.
abbrev behind_dash : List ℕ → List ℕ
behind_dash [] = []
behind_dash (d ∷ ds) = ite (ℕ_discrete d 45) ds (behind_dash ds)

read-decimal :
    (fuel n : ℕ) (after : List ℕ) → n < 10 ^ fuel → read 0 (decimal fuel n after) ≡ read n after
unfolding decimal
read-decimal zero n after h = ap (λ k. read k after) (omega arith)
read-decimal (suc fuel) n after h =
    on_if (λ ds. read 0 ds ≡ read n after) (ltb n 10) (λ e. ap (λ k. read k after) (omega arith))
      (λ e.
        read-decimal fuel (n / 10) ((48 + n % 10) ∷ after) (omega (arith, pow-suc 10 fuel))
        ∙ ap (λ k. read k after) (omega arith))

read-zeros : (n : ℕ) (ds : List ℕ) → read 0 (zeros n ++ ds) ≡ read 0 ds
unfolding zeros
read-zeros zero ds = refl
read-zeros (suc n) ds = read-zeros n ds

read-padded : (w n : ℕ) → n < 10 ^ 20 → read 0 (padded w n) ≡ n
unfolding padded
read-padded w n h =
    read-zeros (w - length (decimal 20 n [])) (decimal 20 n []) ∙ read-decimal 20 n [] h

-- No byte of a number is before the digit zero.
abbrev Digits : List ℕ → Type 0
Digits [] = Unit {0}
Digits (d ∷ ds) = (48 ≤ d) × Digits ds

Digits-append : (xs ys : List ℕ) → Digits xs → Digits ys → Digits (xs ++ ys)
Digits-append [] ys p q = q
Digits-append (x ∷ xs) ys p q = (p.0, Digits-append xs ys p.1 q)

Digits-decimal : (fuel n : ℕ) (after : List ℕ) → Digits after → Digits (decimal fuel n after)
unfolding decimal
Digits-decimal zero n after h = h
Digits-decimal (suc fuel) n after h =
    on_if Digits (ltb n 10) (λ e. (omega arith, h))
      (λ e. Digits-decimal fuel (n / 10) ((48 + n % 10) ∷ after) (omega arith, h))

Digits-zeros : (n : ℕ) → Digits (zeros n)
unfolding zeros
Digits-zeros zero = tt
Digits-zeros (suc n) = (omega arith, Digits-zeros n)

Digits-padded : (w n : ℕ) → Digits (padded w n)
unfolding padded
Digits-padded w n =
    Digits-append (zeros (w - length (decimal 20 n []))) (decimal 20 n [])
      (Digits-zeros (w - length (decimal 20 n []))) (Digits-decimal 20 n [] tt)

Digits-format_timestamp : (now : ℕ) → Digits (format_timestamp now)
unfolding format_timestamp
Digits-format_timestamp now = search (Digits-append, Digits-padded) depth 12

behind_dash-append : (xs ys : List ℕ) → Digits xs → behind_dash (xs ++ (45 ∷ ys)) ≡ ys
behind_dash-append [] ys h = ground arith
behind_dash-append (x ∷ xs) ys h =
    let low : 48 ≤ x = h.0 in ground (arith, behind_dash-append xs ys h.1)

seq-version_id_of : (now i : ℕ) → i < 10 ^ 20 → read 0 (behind_dash (version_id_of now i)) ≡ i
unfolding version_id_of
seq-version_id_of now i h =
    ap (read 0)
      (behind_dash-append (format_timestamp now) (padded 4 i) (Digits-format_timestamp now))
    ∙ read-padded 4 i h

-- Ids with different sequence numbers differ.
pub version_id_of-injective :
    (now later i j : ℕ)
    → i < 10 ^ 20
    → j < 10 ^ 20
    → version_id_of now i ≡ version_id_of later j
    → i ≡ j
version_id_of-injective now later i j h g e =
    sym (seq-version_id_of now i h)
    ∙ ap (λ id. read 0 (behind_dash id)) e
    ∙ seq-version_id_of later j g
