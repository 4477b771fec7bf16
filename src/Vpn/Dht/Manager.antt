-- ===== src/Vpn/Dht/Manager.antt =====
-- `DhtManager` of crates/vpn/src/vpn/dht.rs: its buckets and its values. `sha256` calls the crate
-- `sha2` and is a parameter. A method takes the time that it reads, of the monotonic clock in
-- nanoseconds for the buckets and of the system clock in seconds for the values. The manager's
-- address, its relay and its running mark, which nothing of it reads, are left out.
pub mod Ascending
pub mod Nearest
use Prim.Native.Nat.{Ordering}
use lan_link.Prelude.{
  ℕ, zero, suc, ◌+◌, ◌-◌, ◌/◌, ◌%◌, List, [], ◌∷◌, ◌++◌, map, length, take, replicate, Bool, true,
  false, not, Option, none, some, ltb, leb, if◌then◌else◌, ite,
}
use lan_link.Prelude.Words.{u64_mod, secs}
use lan_link.Prelude.Bytes.{bytes_eq}
use lan_link.Prelude.Assoc
use lan_link.Prelude.Result.{Result, ok, err}
use lan_link.Vpn.Identity.{NodeId, node_eq}
use lan_link.Vpn.Dht.Bucket.{BucketEntry, KBucket, least_recently_seen}
use lan_link.Vpn.Dht.Bucket
use lan_link.Vpn.Dht.Distance.{bucket_count, bucket_index, xor_distance, cmp_xor}

abbrev pub k_bucket_size : ℕ
k_bucket_size = 20

abbrev pub node_timeout_secs : ℕ
node_timeout_secs = 600

pub record ValueEntry : Type 0 where
  pub value : List ℕ
  pub created_at : ℕ
  pub ttl : ℕ

unfoldable pub is_expired : ValueEntry → ℕ → Bool
is_expired v now = leb ((v.created_at + v.ttl) % u64_mod) now

pub record DhtManager : Type 0 where
  pub local_id : NodeId
  pub buckets : List KBucket
  pub values : List (List ℕ × ValueEntry)

unfoldable pub new : NodeId → DhtManager
new local_id = record {
  local_id = local_id;
  buckets = replicate bucket_count (Bucket.new k_bucket_size);
  values = [];
}

-- `&self.buckets[idx]`, and what becomes of the buckets when that one is changed.
unfoldable pub bucket_at : ℕ → List KBucket → Option KBucket
bucket_at i [] = none
bucket_at zero (b ∷ buckets) = some b
bucket_at (suc i) (b ∷ buckets) = bucket_at i buckets

unfoldable pub change_at : ℕ → (KBucket → KBucket) → List KBucket → List KBucket
change_at i f [] = []
change_at zero f (b ∷ buckets) = f b ∷ buckets
change_at (suc i) f (b ∷ buckets) = b ∷ change_at i f buckets

unfoldable pub insert_node :
    DhtManager → NodeId → List ℕ → ℕ → DhtManager × Result (Option BucketEntry) Bool
unfolding bucket_at change_at
insert_node m node_id addr now =
    ite (node_eq node_id m.local_id) (m, ok false)
      (let idx = bucket_index m.local_id node_id in
        (
          record m {
            buckets = change_at idx (λ b. (Bucket.insert b node_id addr now).0) m.buckets;
          },
          elim (bucket_at idx m.buckets) [
            | none ↦ ok false
            | some b ↦ elim (Bucket.insert b node_id addr now).1 [
              | ok is_new ↦ ok is_new
              | err entry ↦ err (some entry)
            ]
          ],
        ))

unfoldable pub touch_node : DhtManager → NodeId → ℕ → DhtManager × Bool
unfolding bucket_at change_at
touch_node m node_id now =
    ite (node_eq node_id m.local_id) (m, false)
      (let idx = bucket_index m.local_id node_id in
        (
          record m { buckets = change_at idx (λ b. (Bucket.touch b node_id now).0) m.buckets },
          elim (bucket_at idx m.buckets) [ none ↦ false | some b ↦ (Bucket.touch b node_id now).1 ],
        ))

unfoldable pub remove_node : DhtManager → NodeId → DhtManager × Option BucketEntry
unfolding bucket_at change_at
remove_node m node_id =
    ite (node_eq node_id m.local_id) (m, none)
      (let idx = bucket_index m.local_id node_id in
        (
          record m { buckets = change_at idx (λ b. (Bucket.remove b node_id).0) m.buckets },
          elim (bucket_at idx m.buckets) [ none ↦ none | some b ↦ (Bucket.remove b node_id).1 ],
        ))

pub record Candidate : Type 0 where
  pub node_id : NodeId
  pub addr : List ℕ
  pub distance : List ℕ

unfoldable pub candidates : NodeId → List KBucket → List Candidate
candidates target [] = []
candidates target (b ∷ buckets) =
    map
      (λ e. record {
        node_id = BucketEntry.node_id e;
        addr = BucketEntry.addr e;
        distance = xor_distance target (BucketEntry.node_id e);
      })
      b.entries
    ++ candidates target buckets

-- `sort_by`, which is stable: a candidate goes before those that are not closer.
unfoldable pub insert_sorted : Candidate → List Candidate → List Candidate
insert_sorted c [] = c ∷ []
insert_sorted c (d ∷ sorted) =
    let rest = insert_sorted c sorted in
    elim (cmp_xor c.distance d.distance) [
      | Ordering.gt ↦ d ∷ rest
      | Ordering.lt ↦ c ∷ d ∷ sorted
      | Ordering.eq ↦ c ∷ d ∷ sorted
    ]

unfoldable pub sort_candidates : List Candidate → List Candidate
unfolding insert_sorted
sort_candidates [] = []
sort_candidates (c ∷ cs) = insert_sorted c (sort_candidates cs)

unfoldable pub find_nearest : DhtManager → NodeId → ℕ → List (NodeId × List ℕ)
unfolding candidates sort_candidates
find_nearest m target count =
    map (λ c. (Candidate.node_id c, Candidate.addr c))
      (take count (sort_candidates (candidates target m.buckets)))

unfoldable pub find_node : DhtManager → NodeId → List (NodeId × List ℕ)
unfolding find_nearest
find_node m target = find_nearest m target k_bucket_size

unfoldable pub count_nodes : List KBucket → ℕ
count_nodes [] = 0
count_nodes (b ∷ buckets) = length b.entries + count_nodes buckets

unfoldable pub node_count : DhtManager → ℕ
unfolding count_nodes
node_count m = count_nodes m.buckets

-- A bootstrap node is its address; each gets the same placeholder for an id.
unfoldable pub bootstrap_from_nodes : DhtManager → List (List ℕ) → ℕ → DhtManager
unfolding insert_node
bootstrap_from_nodes m [] now = m
bootstrap_from_nodes m (addr ∷ nodes) now =
    bootstrap_from_nodes (insert_node m (replicate 32 0) addr now).0 nodes now

-- The nodes of a stale bucket are removed one by one.
unfoldable pub remove_each : List BucketEntry → KBucket → KBucket
remove_each [] b = b
remove_each (e ∷ stale) b = remove_each stale (Bucket.remove b e.node_id).0

unfoldable pub stale_nodes : KBucket → ℕ → List BucketEntry
stale_nodes b now = elim (least_recently_seen b) [
  | none ↦ []
  | some e ↦ if ltb (secs (node_timeout_secs / 2)) (now - e.last_seen) then b.entries else []
]

unfoldable pub refresh_buckets : List KBucket → ℕ → List KBucket × ℕ
unfolding remove_each stale_nodes
refresh_buckets [] now = ([], 0)
refresh_buckets (b ∷ buckets) now =
    let rest = refresh_buckets buckets now in
    let stale = stale_nodes b now in (remove_each stale b ∷ rest.0, length stale + rest.1)

unfoldable pub refresh : DhtManager → ℕ → DhtManager × ℕ
unfolding refresh_buckets
refresh m now = let next = refresh_buckets m.buckets now in (record m { buckets = next.0 }, next.1)

module _ (sha256 : List ℕ → List ℕ) where
  unfoldable pub put_value : DhtManager → List ℕ → List ℕ → ℕ → ℕ → DhtManager × List ℕ
  put_value m key value ttl now = (
    record m {
      values =
          Assoc.insert bytes_eq (sha256 key) (record { value = value; created_at = now; ttl = ttl })
            m.values;
    },
    sha256 key,
  )

  unfoldable pub get_value_by_hash : DhtManager → List ℕ → ℕ → Option ValueEntry
  unfolding is_expired
  get_value_by_hash m key_hash now = elim (Assoc.lookup bytes_eq key_hash m.values) [
    | none ↦ none
    | some v ↦ if not (is_expired v now) then some v else none
  ]

  unfoldable pub get_value : DhtManager → List ℕ → ℕ → Option ValueEntry
  unfolding get_value_by_hash
  get_value m key now = get_value_by_hash m (sha256 key) now

-- `values.retain(|_, v| !v.is_expired())`
unfoldable pub retain_fresh : ℕ → List (List ℕ × ValueEntry) → List (List ℕ × ValueEntry)
unfolding is_expired
retain_fresh now [] = []
retain_fresh now ((k, v) ∷ values) =
    let rest = retain_fresh now values in if not (is_expired v now) then (k, v) ∷ rest else rest

unfoldable pub cleanup_values : DhtManager → ℕ → DhtManager × ℕ
unfolding retain_fresh
cleanup_values m now =
    let kept = retain_fresh now m.values in
    (record m { values = kept }, length m.values - length kept)
