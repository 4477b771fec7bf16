-- ===== src/Reliable/Sender/Acks.antt =====
-- What `ReliableSender::on_ack` acknowledges (crates/protocol/src/reliable.rs).
use Prim.Native.Nat.{bit_and}
use mathlib.Core.Option
use lan_link.Prelude.{
  ℕ, zero, suc, ◌&&◌, ◌||◌, leb, ◌+◌, false, length, ap, ◌-◌, ◌*◌, ◌/◌, ◌%◌, ◌^◌, ◌≤◌, ◌<◌, ◌≡◌,
  refl, ◌∙◌, ◌↔◌, ◌⊎◌, List, [], ◌∷◌, Bool, true, not, ◌==◌, if◌then◌else◌, arith,
}
use lan_link.Prelude.Branches.{on_if}
use lan_link.Prelude.Words.{
  wrapping_add_u32, wrapping_sub_u32, checked_shl_one, bit_and-pow, two_pow_pos,
}
use lan_link.Reliable.Sender.{
  window_size, SendSlot, ReliableSender, is_covered, mark_acked, slide, on_ack,
}

-- The sequence numbers that wait for an ACK, oldest first.
unfoldable pub pending : List SendSlot → List ℕ
pending [] = []
pending (x ∷ xs) = if x.acked then pending xs else x.seq ∷ pending xs

unfoldable pub keep : (ℕ → Bool) → List ℕ → List ℕ
keep p [] = []
keep p (x ∷ xs) = if p x then x ∷ keep p xs else keep p xs

mark_acked-pending :
    (a m : ℕ) (xs : List SendSlot)
    → (pending (mark_acked a m xs).0 ≡ keep (λ q. not (is_covered a m q)) (pending xs))
      × ((mark_acked a m xs).1 ≡ keep (is_covered a m) (pending xs))
unfolding mark_acked pending keep
mark_acked-pending a m [] = (refl, refl)
mark_acked-pending a m (x ∷ xs) = ground (arith, mark_acked-pending a m xs)

slide-pending : (b : ℕ) (xs : List SendSlot) → pending (slide b xs).1 ≡ pending xs
unfolding slide pending
slide-pending b [] = refl
slide-pending b (x ∷ xs) = ground (arith, slide-pending (wrapping_add_u32 b 1) xs)

pub on_ack-marks :
    (s : ReliableSender) (ack_seq ack_bitmap : ℕ)
    → ((on_ack s ack_seq ack_bitmap).1 ≡ keep (is_covered ack_seq ack_bitmap) (pending s.slots))
      × (pending (on_ack s ack_seq ack_bitmap).0.slots
          ≡ keep (λ q. not (is_covered ack_seq ack_bitmap q)) (pending s.slots))
unfolding on_ack
on_ack-marks s a m =
    let (left, taken) = mark_acked-pending a m s.slots in
    (taken, slide-pending s.window_base (mark_acked a m s.slots).0 ∙ left)

nonzero_iff : (v b p : ℕ) → v ≡ b * p → b < 2 → 0 < p → (not (v == 0) ≡ true) ↔ (b ≡ 1)
nonzero_iff v zero p e h g = ground arith
nonzero_iff v (suc zero) p e h g = ground arith
nonzero_iff v (suc (suc b)) p e h g = absurd (omega arith)

bit_test : (m k : ℕ) → (not (bit_and m (2 ^ k) == 0) ≡ true) ↔ (m / 2 ^ k % 2 ≡ 1)
bit_test m k =
    nonzero_iff (bit_and m (2 ^ k)) (m / 2 ^ k % 2) (2 ^ k) (bit_and-pow k m) (omega arith)
      (two_pow_pos k)

abbrev Covers : ℕ → ℕ → Type 0
Covers m d = (d ≡ 0) ⊎ ((1 ≤ d) × (d ≤ 32) × (m / 2 ^ (d - 1) % 2 ≡ 1))

covered_at :
    (m d : ℕ)
    → ((d == 0
          || (leb d window_size
              && not (bit_and m (Option.get_or (checked_shl_one (d - 1)) 0) == 0)))
        ≡ true)
      ↔ Covers m d
covered_at m d = ground (arith, bit_test m (d - 1))

-- An ACK covers its own sequence number, and the one that lies `d` above it (modulo 2 ^ 32), with
-- `d` from 1 to 32, exactly when bit `d - 1` of the bitmap is set.
pub is_covered_iff :
    (a m q : ℕ)
    → (is_covered a m q ≡ true) ↔ (
        (wrapping_sub_u32 q a ≡ 0)
        ⊎ ((1 ≤ wrapping_sub_u32 q a)
            × (wrapping_sub_u32 q a ≤ 32)
            × (m / 2 ^ (wrapping_sub_u32 q a - 1) % 2 ≡ 1)))
unfolding is_covered
is_covered_iff a m q = covered_at m (wrapping_sub_u32 q a)

-- The same as a test: `q` is `a`, or the bit of its distance is set.
abbrev pub covers : ℕ → ℕ → ℕ → Bool
covers a m q = let d = (q + 2 ^ 32 - a) % 2 ^ 32 in d == 0 || (leb d 32 && m / 2 ^ (d - 1) % 2 == 1)

is_covered-covers : (a m q : ℕ) → is_covered a m q ≡ covers a m q
is_covered-covers a m q = ground (arith, is_covered_iff a m q)

keep_same : (p r : ℕ → Bool) (xs : List ℕ) → ((q : ℕ) → p q ≡ r q) → keep p xs ≡ keep r xs
unfolding keep
keep_same p r [] h = refl
keep_same p r (x ∷ xs) h = ground (arith, h x, keep_same p r xs h)

-- The first slot is not acknowledged, if there is one.
abbrev pub StartsPending : List SendSlot → Type 0
StartsPending [] = Unit {0}
StartsPending (x ∷ xs) = x.acked ≡ false

slide-StartsPending : (b : ℕ) (xs : List SendSlot) → StartsPending (slide b xs).1
unfolding slide
slide-StartsPending b [] = tt
slide-StartsPending b (x ∷ xs) =
    on_if (λ (r : ℕ × List SendSlot). StartsPending r.1) x.acked
      (λ h. slide-StartsPending (wrapping_add_u32 b 1) xs) (λ h. h)

-- How far the base of the window goes when so many slots in front are taken off.
slide-base :
    (b : ℕ) (xs : List SendSlot)
    → (length (slide b xs).1 ≤ length xs)
      × ((slide b xs).0 % 2 ^ 32 ≡ (b + (length xs - length (slide b xs).1)) % 2 ^ 32)
unfolding slide
slide-base b [] = (omega arith, omega arith)
slide-base b (x ∷ xs) =
    let ih = slide-base (wrapping_add_u32 b 1) xs in
    on_if
      (λ (r : ℕ × List SendSlot).
        (length r.1 ≤ length (x ∷ xs))
        × (r.0 % 2 ^ 32 ≡ (b + (length (x ∷ xs) - length r.1)) % 2 ^ 32))
      x.acked (λ h. (omega (arith, ih), omega (arith, ih))) (λ h. (omega arith, omega arith))

length-mark_acked : (a m : ℕ) (xs : List SendSlot) → length (mark_acked a m xs).0 ≡ length xs
unfolding mark_acked
length-mark_acked a m [] = refl
length-mark_acked a m (x ∷ xs) = ground (arith, length-mark_acked a m xs)

-- `on_ack` returns the pending sequence numbers that the ACK covers, oldest first, and exactly the
-- others are pending afterwards. An ACK covers its own number `a`, and `a + d` modulo 2 ^ 32, with `d`
-- from 1 to 32, if bit `d - 1` of the bitmap is set. The window then starts at a slot that is pending,
-- if there is one, and its base has gone as far as slots were taken off.
pub on_ack-pending :
    (s : ReliableSender) (ack_seq ack_bitmap : ℕ)
    → ((on_ack s ack_seq ack_bitmap).1 ≡ keep (covers ack_seq ack_bitmap) (pending s.slots))
      × (pending (on_ack s ack_seq ack_bitmap).0.slots
          ≡ keep (λ q. not (covers ack_seq ack_bitmap q)) (pending s.slots))
      × StartsPending (on_ack s ack_seq ack_bitmap).0.slots
      × (length (on_ack s ack_seq ack_bitmap).0.slots ≤ length s.slots)
      × ((on_ack s ack_seq ack_bitmap).0.window_base % 2 ^ 32
          ≡ (s.window_base + (length s.slots - length (on_ack s ack_seq ack_bitmap).0.slots))
            % 2 ^ 32)
unfolding on_ack
on_ack-pending s a m =
    let marks = on_ack-marks s a m in
    let same = is_covered-covers a m in
    let marked = (mark_acked a m s.slots).0 in
    let base = slide-base s.window_base marked in
    let count = length-mark_acked a m s.slots in
    (
      marks.0 ∙ keep_same (is_covered a m) (covers a m) (pending s.slots) same,
      marks.1
          ∙ keep_same (λ q. not (is_covered a m q)) (λ q. not (covers a m q)) (pending s.slots)
              (λ q. ap not (same q)),
      slide-StartsPending s.window_base marked,
      omega (arith, base.0, count),
      base.1
          ∙ ap (λ n. (s.window_base + (n - length (slide s.window_base marked).1)) % 2 ^ 32) count,
    )
