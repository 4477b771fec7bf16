-- ===== src/Vpn/Dht/Distance/Numbers.antt =====
-- Distances as numbers of 256 bits (crates/vpn/src/vpn/dht.rs).
use Prim.Native.Nat.{bit_xor}
use native.Mathlib.Nat.{pow-suc, suc-mul, zero-mul, mul_comm, mul_assoc, mul-le-mul_right}
use native.Mathlib.Numerals.{towards_suc}
use lan_link.Prelude.{
  ℕ, zero, suc, ◌+◌, ◌-◌, ◌*◌, ◌^◌, ◌<◌, ◌≤◌, ◌≡◌, ◌≢◌, refl, ap, sym, ◌∙◌, List, [], ◌∷◌, length,
  leb, ltb, Bool, true, ◌&&◌, ◌||◌, Bool-cases, inl, inr, ◌==◌, not, arith, if◌then◌else◌, false,
}
use lan_link.Prelude.Branches.{on_if}
use lan_link.Prelude.Bytes.{from_le, from_be, AllBytes}
use lan_link.Vpn.Identity.{NodeId}
use lan_link.Vpn.Dht.Distance.{leading_zeros, first_bit, xor_distance, bucket_index}
use lan_link.Vpn.Dht.Distance.Order.{from_be-cons, below}

-- The highest bit of a byte that is not 0.
abbrev HighBit : ℕ → ℕ → Type 0
HighBit d l = (l ≤ 7) × (2 ^ (7 - l) ≤ d) × (d < 2 ^ (8 - l))

leading_zeros-HighBit : (d : ℕ) → d < 256 → d ≢ 0 → HighBit d (leading_zeros d)
unfolding leading_zeros
leading_zeros-HighBit d h n =
    on_if (HighBit d) (leb 128 d) (λ c. (omega arith, ground arith, omega arith))
      (λ c₇.
        on_if (HighBit d) (leb 64 d) (λ c. (omega arith, ground arith, ground arith))
          (λ c₆.
            on_if (HighBit d) (leb 32 d) (λ c. (omega arith, ground arith, ground arith))
              (λ c₅.
                on_if (HighBit d) (leb 16 d) (λ c. (omega arith, ground arith, ground arith))
                  (λ c₄.
                    on_if (HighBit d) (leb 8 d) (λ c. (omega arith, ground arith, ground arith))
                      (λ c₃.
                        on_if (HighBit d) (leb 4 d) (λ c. (omega arith, ground arith, ground arith))
                          (λ c₂.
                            on_if (HighBit d) (leb 2 d)
                              (λ c. (omega arith, ground arith, ground arith))
                              (λ c₁.
                                on_if (HighBit d) (leb 1 d)
                                  (λ c. (omega arith, ground arith, ground arith))
                                  (λ c₀. absurd (ground arith)))))))))

pow_eight : (n : ℕ) → 2 ^ (n + 8) ≡ 256 * 2 ^ n
pow_eight n = simp towards_suc (
    omega (
      arith,
      pow-suc 2 (suc (suc (suc (suc (suc (suc (suc n))))))),
      pow-suc 2 (suc (suc (suc (suc (suc (suc n)))))),
      pow-suc 2 (suc (suc (suc (suc (suc n))))),
      pow-suc 2 (suc (suc (suc (suc n)))),
      pow-suc 2 (suc (suc (suc n))),
      pow-suc 2 (suc (suc n)),
      pow-suc 2 (suc n),
      pow-suc 2 n,
    ))

pow_eq : (a b : ℕ) → a ≡ b → 2 ^ a ≡ 2 ^ b
pow_eq a b e = ap (λ (k : ℕ). 2 ^ k) e

pow_bytes : (e n : ℕ) → 2 ^ (8 * n + e) ≡ 2 ^ e * 256 ^ n
pow_bytes e zero = omega (arith, pow_eq (8 * 0 + e) e (omega arith))
pow_bytes e (suc n) = omega (
  arith,
  pow_eq (8 * suc n + e) (8 * n + e + 8) (omega arith),
  pow_eight (8 * n + e),
  pow_bytes e n,
  ap (λ (t : ℕ). 2 ^ e * t) (pow-suc 256 n),
  mul_assoc (2 ^ e) (256 ^ n) 256,
)

-- The distance has its highest bit at the place that counts up to `index` from the top.
abbrev pub InBucket : ℕ → List ℕ → Type 0
InBucket index distance =
    (index < 8 * length distance)
    × (2 ^ (8 * length distance - 1 - index) ≤ from_be distance)
    × (from_be distance < 2 ^ (8 * length distance - index))

first_bit-InBucket :
    (i : ℕ) (bs : List ℕ)
    → AllBytes bs
    → from_be bs ≢ 0
    → (k : ℕ) × (first_bit i bs ≡ 8 * i + k) × InBucket k bs
unfolding first_bit
first_bit-InBucket i [] a n = absurd (n (unfold from_le in refl))
first_bit-InBucket i (d ∷ bs) a n = elim (Bool-cases (d == 0)) [
  | inl z ↦
      let zero_ : d ≡ 0 = ground arith in
      let value : from_be (d ∷ bs) ≡ from_be bs = omega (
        arith,
        from_be-cons d bs,
        ap (λ (t : ℕ). t * 256 ^ length bs) zero_,
        zero-mul (256 ^ length bs),
      ) in
      let ih = first_bit-InBucket (suc i) bs a.1 (λ e. n (value ∙ e)) in
      (
        ih.0 + 8,
        rw z (omega (arith, ih.1)),
        (
          omega (arith, ih.2.0),
          omega (
            arith,
            ih.2.1,
            value,
            pow_eq (8 * length (d ∷ bs) - 1 - (ih.0 + 8)) (8 * length bs - 1 - ih.0) (omega arith),
          ),
          omega (
            arith,
            ih.2.2,
            value,
            pow_eq (8 * length (d ∷ bs) - (ih.0 + 8)) (8 * length bs - ih.0) (omega arith),
          ),
        ),
      )
  | inr nz ↦
      let l = leading_zeros d in
      let w = leading_zeros-HighBit d a.0 (ground arith) in
      let m = 256 ^ length bs in
      let rest = below bs a.1 in
      let low : 2 ^ (7 - l) * m ≤ d * m = mul-le-mul_right m w.1 in
      let high : suc d * m ≤ 2 ^ (8 - l) * m = mul-le-mul_right m w.2 in
      (
        l,
        rw nz (omega arith),
        (
          omega (arith, w.0),
          omega (
            arith,
            low,
            from_be-cons d bs,
            pow_bytes (7 - l) (length bs),
            pow_eq (8 * length (d ∷ bs) - 1 - l) (8 * length bs + (7 - l)) (omega (arith, w.0)),
          ),
          omega (
            arith,
            high,
            rest,
            suc-mul d m,
            from_be-cons d bs,
            pow_bytes (8 - l) (length bs),
            pow_eq (8 * length (d ∷ bs) - l) (8 * length bs + (8 - l)) (omega (arith, w.0)),
          ),
        ),
      )
]

-- The test succeeds for each of the bytes that are left to try.
succeeds : (ℕ → Bool) → ℕ → Bool
succeeds test zero = true
succeeds test (suc left) = if test left then succeeds test left else false

test-succeeds :
    (test : ℕ → Bool) (left byte : ℕ) → byte < left → succeeds test left ≡ true → test byte ≡ true
unfolding succeeds
test-succeeds test zero byte h s = absurd (omega arith)
test-succeeds test (suc left) byte h s = ground (arith, test-succeeds test left byte)

-- The differences of two bytes are bytes, and 0 only of equal ones.
abbrev good : ℕ → ℕ → Bool
good x y = ltb (bit_xor x y) 256 && (x == y || not (bit_xor x y == 0))

xor_table : succeeds (λ x. succeeds (good x) 256) 256 ≡ true
unfolding succeeds
xor_table = refl

pow_bytes_pos : (n : ℕ) → 1 ≤ 256 ^ n
pow_bytes_pos zero = omega arith
pow_bytes_pos (suc n) = omega (arith, pow_bytes_pos n, pow-suc 256 n)

bit_xor-good : (x y : ℕ) → x < 256 → y < 256 → (bit_xor x y < 256) × (bit_xor x y ≡ 0 → x ≡ y)
bit_xor-good x y hx hy =
    let row = test-succeeds (λ x. succeeds (good x) 256) 256 x hx xor_table in
    let cell : good x y ≡ true = test-succeeds (good x) 256 y hy row in
    (ground arith, λ z. ground arith)

pub xor_distance-AllBytes : (a b : NodeId) → AllBytes a → AllBytes b → AllBytes (xor_distance a b)
unfolding xor_distance
xor_distance-AllBytes [] b ha hb = tt
xor_distance-AllBytes (x ∷ a) [] ha hb = tt
xor_distance-AllBytes (x ∷ a) (y ∷ b) ha hb =
    ((bit_xor-good x y ha.0 hb.0).0, xor_distance-AllBytes a b ha.1 hb.1)

pub length-xor_distance :
    (a b : NodeId) → length a ≡ length b → length (xor_distance a b) ≡ length a
unfolding xor_distance
length-xor_distance [] b e = refl
length-xor_distance (x ∷ a) [] e = absurd (omega arith)
length-xor_distance (x ∷ a) (y ∷ b) e = ap suc (length-xor_distance a b (omega arith))

xor_distance-zero :
    (a b : NodeId)
    → length a ≡ length b
    → AllBytes a
    → AllBytes b
    → from_be (xor_distance a b) ≡ 0
    → a ≡ b
unfolding xor_distance
xor_distance-zero [] [] e ha hb z = refl
xor_distance-zero [] (y ∷ b) e ha hb z = absurd (omega arith)
xor_distance-zero (x ∷ a) [] e ha hb z = absurd (omega arith)
xor_distance-zero (x ∷ a) (y ∷ b) e ha hb z =
    let d = xor_distance a b in
    let v = from_be-cons (bit_xor x y) d in
    let pos : 1 * bit_xor x y ≤ 256 ^ length d * bit_xor x y =
      mul-le-mul_right (bit_xor x y) (pow_bytes_pos (length d)) in
    let flip = mul_comm (256 ^ length d) (bit_xor x y) in
    let head_ : x ≡ y = (bit_xor-good x y ha.0 hb.0).1 (omega (arith, v, z, pos, flip)) in
    let tail_ : a ≡ b = xor_distance-zero a b (omega arith) ha.1 hb.1 (omega (arith, v, z)) in cc

-- For different nodes the bucket is the place of the highest bit of their distance: bucket `i` is for
-- the distances from 2 ^ (255 - i) on and below 2 ^ (256 - i).
pub bucket_index-range :
    (a b : NodeId)
    → length a ≡ 32
    → length b ≡ 32
    → AllBytes a
    → AllBytes b
    → a ≢ b
    → (bucket_index a b < 256)
      × (2 ^ (255 - bucket_index a b) ≤ from_be (xor_distance a b))
      × (from_be (xor_distance a b) < 2 ^ (256 - bucket_index a b))
unfolding bucket_index
bucket_index-range a b la lb ha hb n =
    let d = xor_distance a b in
    let w =
      first_bit-InBucket 0 d (xor_distance-AllBytes a b ha hb)
        (λ z. n (xor_distance-zero a b (la ∙ sym lb) ha hb z)) in
    let size : length d ≡ 32 = length-xor_distance a b (la ∙ sym lb) ∙ la in
    let k : first_bit 0 d ≡ w.0 = omega (arith, w.1) in
    rw k (
      omega (arith, w.2.0, size),
      omega (arith, w.2.1, pow_eq (255 - w.0) (8 * length d - 1 - w.0) (omega (arith, size))),
      omega (arith, w.2.2, pow_eq (256 - w.0) (8 * length d - w.0) (omega (arith, size))),
    )
