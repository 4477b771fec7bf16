-- ===== src/Vpn/Dht/Manager/Nearest.antt =====
-- The nodes that `find_nearest` returns (crates/vpn/src/vpn/dht.rs).
use mathlib.Core.List.{Perm, map-append}
use mathlib.Core.List.Perm
use lan_link.Prelude.{
  ℕ, zero, suc, ◌≤◌, ◌≡◌, refl, ap, sym, ◌∙◌, subst, List, [], ◌∷◌, ◌++◌, map, min, length, take,
  drop, take-append-drop, length-take, All, arith,
}
use lan_link.Prelude.Bytes.{from_be}
use lan_link.Vpn.Identity.{NodeId}
use lan_link.Vpn.Dht.Bucket.{BucketEntry, KBucket}
use lan_link.Vpn.Dht.Distance.{xor_distance}
use lan_link.Vpn.Dht.Manager.{DhtManager, Candidate, candidates, sort_candidates, find_nearest}
use lan_link.Vpn.Dht.Manager.Ascending.{
  number, IsAscending, IsId, HasIds, node_of, sort_candidates-perm, sort_candidates-All,
  sort_candidates-IsAscending, candidates-All, take-IsAscending, length-sort_candidates,
  front_closer,
}

-- The nodes of the buckets, with their addresses.
abbrev pub nodes_of : List BucketEntry → List (NodeId × List ℕ)
nodes_of [] = []
nodes_of (e ∷ es) = (e.node_id, e.addr) ∷ nodes_of es

abbrev pub nodes_in : List KBucket → List (NodeId × List ℕ)
nodes_in [] = []
nodes_in (b ∷ buckets) = nodes_of b.entries ++ nodes_in buckets

-- The distance of a node as a number of 256 bits.
abbrev pub distance : NodeId → NodeId × List ℕ → ℕ
distance target n = from_be (xor_distance target n.0)

-- No node of the first list is farther than one of the second.
abbrev pub AreCloser : NodeId → List (NodeId × List ℕ) → List (NodeId × List ℕ) → Type 0
AreCloser target near far = All (λ n. All (λ o. distance target n ≤ distance target o) far) near

-- No node is farther than one that stands behind it.
abbrev pub IsNearFirst : NodeId → List (NodeId × List ℕ) → Type 0
IsNearFirst target [] = Unit {0}
IsNearFirst target (n ∷ nodes) =
    All (λ o. distance target n ≤ distance target o) nodes × IsNearFirst target nodes

module _ (target : NodeId) where
  abbrev IsMeasured : Candidate → Type 0
  IsMeasured c = number c ≡ distance target (node_of c)

  abbrev measured : List BucketEntry → List Candidate
  measured es =
      map
        (λ e. record {
          node_id = BucketEntry.node_id e;
          addr = BucketEntry.addr e;
          distance = xor_distance target (BucketEntry.node_id e);
        })
        es

  nodes-measured : (es : List BucketEntry) → map node_of (measured es) ≡ nodes_of es
  nodes-measured [] = refl
  nodes-measured (e ∷ es) = ap (◌∷◌ (e.node_id, e.addr)) (nodes-measured es)

  measured-append :
      (es : List BucketEntry) (ds : List Candidate)
      → All IsMeasured ds
      → All IsMeasured (measured es ++ ds)
  measured-append [] ds a = a
  measured-append (e ∷ es) ds a = (refl, measured-append es ds a)

  nodes-candidates : (bs : List KBucket) → map node_of (candidates target bs) ≡ nodes_in bs
  unfolding candidates
  nodes-candidates [] = refl
  nodes-candidates (b ∷ bs) =
      map-append node_of (measured b.entries) (candidates target bs)
      ∙ ap (λ ns. ns ++ map node_of (candidates target bs)) (nodes-measured b.entries)
      ∙ ap (λ ns. nodes_of b.entries ++ ns) (nodes-candidates bs)

  candidates-IsMeasured : (bs : List KBucket) → All IsMeasured (candidates target bs)
  unfolding candidates
  candidates-IsMeasured [] = tt
  candidates-IsMeasured (b ∷ bs) =
      measured-append b.entries (candidates target bs) (candidates-IsMeasured bs)

  closer_nodes :
      (low : ℕ) (n : NodeId × List ℕ) (cs : List Candidate)
      → low ≡ distance target n
      → All IsMeasured cs
      → All (λ d. low ≤ number d) cs
      → All (λ o. distance target n ≤ distance target o) (map node_of cs)
  closer_nodes low n [] p m a = tt
  closer_nodes low n (c ∷ cs) p m a = (omega (arith, p, m.0, a.0), closer_nodes low n cs p m.1 a.1)

  nodes-IsNearFirst :
      (cs : List Candidate)
      → All IsMeasured cs
      → IsAscending cs
      → IsNearFirst target (map node_of cs)
  nodes-IsNearFirst [] m a = tt
  nodes-IsNearFirst (c ∷ cs) m a =
      (closer_nodes (number c) (node_of c) cs m.0 m.1 a.0, nodes-IsNearFirst cs m.1 a.1)

  nodes-AreCloser :
      (cs ds : List Candidate)
      → All IsMeasured cs
      → All IsMeasured ds
      → All (λ c. All (λ d. number c ≤ number d) ds) cs
      → AreCloser target (map node_of cs) (map node_of ds)
  nodes-AreCloser [] ds m n a = tt
  nodes-AreCloser (c ∷ cs) ds m n a =
      (closer_nodes (number c) (node_of c) ds m.0 n a.0, nodes-AreCloser cs ds m.1 n a.1)

  take-IsMeasured : (n : ℕ) (cs : List Candidate) → All IsMeasured cs → All IsMeasured (take n cs)
  take-IsMeasured zero cs a = tt
  take-IsMeasured (suc n) [] a = tt
  take-IsMeasured (suc n) (c ∷ cs) a = (a.0, take-IsMeasured n cs a.1)

  drop-IsMeasured : (n : ℕ) (cs : List Candidate) → All IsMeasured cs → All IsMeasured (drop n cs)
  drop-IsMeasured zero cs a = a
  drop-IsMeasured (suc n) [] a = tt
  drop-IsMeasured (suc n) (c ∷ cs) a = drop-IsMeasured n cs a.1

length-nodes : (cs : List Candidate) → length (map node_of cs) ≡ length cs
length-nodes [] = refl
length-nodes (c ∷ cs) = ap suc (length-nodes cs)

-- `find_nearest` returns as many nodes of the buckets as are asked for, or all of them, the closer
-- before the farther, and the other nodes of the buckets are no closer than one of them, where a
-- distance counts as a number of 256 bits: if all ids have 32 bytes.
pub find_nearest-closest :
    (m : DhtManager) (target : NodeId) (count : ℕ)
    → IsId target
    → HasIds m.buckets
    → (others : List (NodeId × List ℕ)) × Perm
        (find_nearest m target count ++ others)
        (nodes_in m.buckets)
      × (length (find_nearest m target count) ≡ min count (length (nodes_in m.buckets)))
      × IsNearFirst target (find_nearest m target count)
      × AreCloser target (find_nearest m target count) others
unfolding find_nearest
find_nearest-closest m target count ht hb =
    let all_ = candidates target m.buckets in
    let sorted = sort_candidates all_ in
    let ascending = sort_candidates-IsAscending all_ (candidates-All target ht m.buckets hb) in
    let sized =
      sort_candidates-All (IsMeasured target) all_ (candidates-IsMeasured target m.buckets) in
    let kept = take-IsMeasured target count sorted sized in
    let rest = drop-IsMeasured target count sorted sized in
    let nodes = nodes-candidates target m.buckets in
    let whole =
      ap (map node_of) (sym (take-append-drop count sorted))
      ∙ map-append node_of (take count sorted) (drop count sorted) in
    (
      map node_of (drop count sorted),
      subst (λ ns. Perm ns (nodes_in m.buckets)) whole
          (subst (Perm (map node_of sorted)) nodes (Perm.map node_of (sort_candidates-perm all_))),
      length-nodes (take count sorted)
          ∙ length-take count sorted
          ∙ ap (min count)
              (length-sort_candidates all_ ∙ sym (length-nodes all_) ∙ ap length nodes),
      nodes-IsNearFirst target (take count sorted) kept (take-IsAscending count sorted ascending),
      nodes-AreCloser target (take count sorted) (drop count sorted) kept rest
          (front_closer count sorted ascending),
    )
