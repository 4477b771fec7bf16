-- ===== src/Vpn/Dht/Manager/Ascending.antt =====
-- The candidates of `find_nearest`, sorted (crates/vpn/src/vpn/dht.rs).
use Prim.Native.Nat.{compare, Ordering}
use mathlib.Core.List.{Perm}
use mathlib.Core.List.Perm
use lan_link.Prelude.{
  ℕ, zero, suc, ◌≤◌, ◌≡◌, ◌≢◌, refl, ap, sym, ◌∙◌, List, [], ◌∷◌, ◌++◌, map, length, take, drop,
  All, arith,
}
use lan_link.Prelude.Bytes.{from_be, AllBytes}
use lan_link.Vpn.Identity.{NodeId}
use lan_link.Vpn.Dht.Bucket.{BucketEntry, KBucket}
use lan_link.Vpn.Dht.Distance.{xor_distance, cmp_xor}
use lan_link.Vpn.Dht.Distance.Order.{cmp_xor-compare}
use lan_link.Vpn.Dht.Distance.Numbers.{length-xor_distance, xor_distance-AllBytes}
use lan_link.Vpn.Dht.Manager.{Candidate, candidates, insert_sorted, sort_candidates}

-- The 256-bit number that a distance stands for.
abbrev pub number : Candidate → ℕ
number c = from_be c.distance

abbrev pub IsSized : Candidate → Type 0
IsSized c = (length c.distance ≡ 32) × AllBytes c.distance

-- No candidate is farther than one that stands behind it.
abbrev pub IsAscending : List Candidate → Type 0
IsAscending [] = Unit
IsAscending (c ∷ cs) = All (λ d. number c ≤ number d) cs × IsAscending cs

compares :
    (c d : Candidate)
    → IsSized c
    → IsSized d
    → cmp_xor c.distance d.distance ≡ compare (number c) (number d)
compares c d hc hd = cmp_xor-compare c.distance d.distance (hc.0 ∙ sym hd.0) hc.1 hd.1

All-weaken :
    (low high : ℕ) (cs : List Candidate)
    → low ≤ high
    → All (λ d. high ≤ number d) cs
    → All (λ d. low ≤ number d) cs
All-weaken low high [] h a = tt
All-weaken low high (c ∷ cs) h a = (omega (arith, a.0), All-weaken low high cs h a.1)

-- What holds where the candidate goes on, and where it is put.
on_order {ℓ κ} :
    {A : Type ℓ} (P : A → Type κ) (o : Ordering) {x y : A}
    → (o ≡ Ordering.gt → P x)
    → (o ≢ Ordering.gt → P y)
    → P (elim o [ Ordering.gt ↦ x | Ordering.lt ↦ y | Ordering.eq ↦ y ])
on_order P Ordering.gt f g = f refl
on_order P Ordering.lt f g = g (λ e. cc)
on_order P Ordering.eq f g = g (λ e. cc)

gt→le : (a b : ℕ) → compare a b ≡ Ordering.gt → b ≤ a
gt→le a b h = ground arith

not_gt→le : (a b : ℕ) → compare a b ≢ Ordering.gt → a ≤ b
not_gt→le a b h = ground arith

module _ (c : Candidate) where
  insert_sorted-perm : (cs : List Candidate) → Perm (insert_sorted c cs) (c ∷ cs)
  unfolding insert_sorted
  insert_sorted-perm [] = Perm.refl (c ∷ [])
  insert_sorted-perm (d ∷ cs) =
      on_order (λ r. Perm r (c ∷ d ∷ cs)) (cmp_xor c.distance d.distance)
        (λ _. Perm.trans (Perm.cons d (insert_sorted-perm cs)) (Perm.swap c d cs))
        (λ _. Perm.refl (c ∷ d ∷ cs))

  All-insert_sorted :
      (P : Candidate → Type 0) (cs : List Candidate) → P c → All P cs → All P (insert_sorted c cs)
  unfolding insert_sorted
  All-insert_sorted P [] h a = (h, tt)
  All-insert_sorted P (d ∷ cs) h a =
      on_order (All P) (cmp_xor c.distance d.distance) (λ _. (a.0, All-insert_sorted P cs h a.1))
        (λ _. (h, a))

  insert_sorted-IsAscending :
      (cs : List Candidate)
      → IsSized c
      → All IsSized cs
      → IsAscending cs
      → IsAscending (insert_sorted c cs)
  unfolding insert_sorted
  insert_sorted-IsAscending [] hc hs a = (tt, tt)
  insert_sorted-IsAscending (d ∷ cs) hc hs a =
      let same = compares c d hc hs.0 in
      on_order IsAscending (cmp_xor c.distance d.distance)
        (λ e. (
          All-insert_sorted (λ x. number d ≤ number x) cs
              (gt→le (number c) (number d) (sym same ∙ e)) a.0,
          insert_sorted-IsAscending cs hc hs.1 a.1,
        ))
        (λ n.
          let le = not_gt→le (number c) (number d) (λ e. n (same ∙ e)) in
          ((le, All-weaken (number c) (number d) cs le a.0), a))

pub sort_candidates-perm : (cs : List Candidate) → Perm (sort_candidates cs) cs
unfolding sort_candidates
sort_candidates-perm [] = Perm.refl []
sort_candidates-perm (c ∷ cs) =
    Perm.trans (insert_sorted-perm c (sort_candidates cs)) (Perm.cons c (sort_candidates-perm cs))

pub sort_candidates-All :
    (P : Candidate → Type 0) (cs : List Candidate) → All P cs → All P (sort_candidates cs)
unfolding sort_candidates
sort_candidates-All P [] a = tt
sort_candidates-All P (c ∷ cs) a =
    All-insert_sorted c P (sort_candidates cs) a.0 (sort_candidates-All P cs a.1)

pub sort_candidates-IsAscending :
    (cs : List Candidate) → All IsSized cs → IsAscending (sort_candidates cs)
unfolding sort_candidates
sort_candidates-IsAscending [] a = tt
sort_candidates-IsAscending (c ∷ cs) a =
    insert_sorted-IsAscending c (sort_candidates cs) a.0 (sort_candidates-All IsSized cs a.1)
      (sort_candidates-IsAscending cs a.1)

-- Every id in the buckets has 32 bytes.
abbrev pub IsId : NodeId → Type 0
IsId id = (length id ≡ 32) × AllBytes id

abbrev pub HasIds : List KBucket → Type 0
HasIds = All (λ b. All (λ e. IsId (BucketEntry.node_id e)) (KBucket.entries b))

All-append : (cs ds : List Candidate) → All IsSized cs → All IsSized ds → All IsSized (cs ++ ds)
All-append [] ds a b = b
All-append (c ∷ cs) ds a b = (a.0, All-append cs ds a.1 b)

module _ (target : NodeId) (ht : IsId target) where
  entries-All :
      (es : List BucketEntry)
      → All (λ e. IsId (BucketEntry.node_id e)) es
      → All IsSized (
          map
            (λ e. record {
              node_id = BucketEntry.node_id e;
              addr = BucketEntry.addr e;
              distance = xor_distance target (BucketEntry.node_id e);
            })
            es)
  entries-All [] a = tt
  entries-All (e ∷ es) a = (
    (
      length-xor_distance target e.node_id (ht.0 ∙ sym a.0.0) ∙ ht.0,
      xor_distance-AllBytes target e.node_id ht.1 a.0.1,
    ),
    entries-All es a.1,
  )

  pub candidates-All : (bs : List KBucket) → HasIds bs → All IsSized (candidates target bs)
  unfolding candidates
  candidates-All [] a = tt
  candidates-All (b ∷ bs) a =
      All-append _ (candidates target bs) (entries-All b.entries a.0) (candidates-All bs a.1)

abbrev pub node_of : Candidate → NodeId × List ℕ
node_of c = (c.node_id, c.addr)

All-drop :
    (low n : ℕ) (cs : List Candidate)
    → All (λ d. low ≤ number d) cs
    → All (λ d. low ≤ number d) (drop n cs)
All-drop low zero cs a = a
All-drop low (suc n) [] a = tt
All-drop low (suc n) (c ∷ cs) a = All-drop low n cs a.1

All-take :
    (low n : ℕ) (cs : List Candidate)
    → All (λ d. low ≤ number d) cs
    → All (λ d. low ≤ number d) (take n cs)
All-take low zero cs a = tt
All-take low (suc n) [] a = tt
All-take low (suc n) (c ∷ cs) a = (a.0, All-take low n cs a.1)

pub take-IsAscending : (n : ℕ) (cs : List Candidate) → IsAscending cs → IsAscending (take n cs)
take-IsAscending zero cs a = tt
take-IsAscending (suc n) [] a = tt
take-IsAscending (suc n) (c ∷ cs) a = (All-take (number c) n cs a.0, take-IsAscending n cs a.1)

length-insert_sorted :
    (c : Candidate) (cs : List Candidate) → length (insert_sorted c cs) ≡ suc (length cs)
unfolding insert_sorted
length-insert_sorted c [] = refl
length-insert_sorted c (d ∷ cs) =
    on_order (λ (r : List Candidate). length r ≡ suc (length (d ∷ cs)))
      (cmp_xor c.distance d.distance) (λ _. ap suc (length-insert_sorted c cs)) (λ _. refl)

pub length-sort_candidates : (cs : List Candidate) → length (sort_candidates cs) ≡ length cs
unfolding sort_candidates
length-sort_candidates [] = refl
length-sort_candidates (c ∷ cs) =
    length-insert_sorted c (sort_candidates cs) ∙ ap suc (length-sort_candidates cs)

-- A front of an ascending list is as close as what is behind it.
pub front_closer :
    (n : ℕ) (cs : List Candidate)
    → IsAscending cs
    → All (λ c. All (λ d. number c ≤ number d) (drop n cs)) (take n cs)
front_closer zero cs a = tt
front_closer (suc n) [] a = tt
front_closer (suc n) (c ∷ cs) a = (All-drop (number c) n cs a.0, front_closer n cs a.1)
