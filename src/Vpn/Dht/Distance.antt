-- ===== src/Vpn/Dht/Distance.antt =====
-- The distance between nodes (crates/vpn/src/vpn/dht.rs). An id has 32 bytes, so that the loops over
-- the positions 0 to 31 go through the bytes of an id.
pub mod Order
pub mod Numbers
use Prim.Native.Nat.{bit_xor, compare, Ordering}
use lan_link.Prelude.{ℕ, zero, suc, ◌+◌, ◌-◌, ◌*◌, List, [], ◌∷◌, not, leb, ◌==◌, if◌then◌else◌}
use lan_link.Vpn.Identity.{NodeId}

abbrev pub bucket_count : ℕ
bucket_count = 256

unfoldable pub xor_distance : NodeId → NodeId → List ℕ
xor_distance [] b = []
xor_distance (x ∷ a) [] = []
xor_distance (x ∷ a) (y ∷ b) = bit_xor x y ∷ xor_distance a b

-- `leading_zeros` of a u8.
unfoldable pub leading_zeros : ℕ → ℕ
leading_zeros x =
    if leb 128 x
    then 0
    else if leb 64 x
    then 1
    else if leb 32 x
    then 2
    else if leb 16 x
    then 3
    else if leb 8 x
    then 4
    else if leb 4 x
    then 5
    else if leb 2 x
    then 6
    else if leb 1 x
    then 7
    else 8

-- The loop from byte `i` on.
unfoldable pub first_bit : ℕ → List ℕ → ℕ
unfolding leading_zeros
first_bit i [] = bucket_count - 1
first_bit i (d ∷ rest) =
    let later = first_bit (suc i) rest in if not (d == 0) then i * 8 + leading_zeros d else later

unfoldable pub bucket_index : NodeId → NodeId → ℕ
unfolding xor_distance first_bit
bucket_index local_id target = first_bit 0 (xor_distance local_id target)

unfoldable pub cmp_xor : List ℕ → List ℕ → Ordering
cmp_xor [] b = Ordering.eq
cmp_xor (x ∷ a) [] = Ordering.eq
cmp_xor (x ∷ a) (y ∷ b) = elim (compare x y) [
  | Ordering.lt ↦ Ordering.lt
  | Ordering.gt ↦ Ordering.gt
  | Ordering.eq ↦ cmp_xor a b
]
