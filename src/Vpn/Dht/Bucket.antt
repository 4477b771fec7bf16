-- ===== src/Vpn/Dht/Bucket.antt =====
-- `KBucket` of crates/vpn/src/vpn/dht.rs. An address is the bytes of its text.
pub mod Distinct
pub mod Invariant
pub mod Kept
use mathlib.Core.Option
use lan_link.Prelude.{
  ℕ, zero, suc, List, [], ◌∷◌, ◌++◌, length, Bool, true, false, Option, none, some, ltb, leb,
  if◌then◌else◌, ite,
}
use lan_link.Prelude.Result.{Result, ok, err}
use lan_link.Vpn.Identity.{NodeId, node_eq}

pub record BucketEntry : Type 0 where
  pub node_id : NodeId
  pub addr : List ℕ
  pub last_seen : ℕ

pub record KBucket : Type 0 where
  pub entries : List BucketEntry
  pub capacity : ℕ

unfoldable pub new : ℕ → KBucket
new capacity = record { entries = []; capacity = capacity }

-- The loop that looks for the node and refreshes it where it is.
unfoldable pub refresh_entry : NodeId → List ℕ → ℕ → List BucketEntry → Option (List BucketEntry)
refresh_entry node_id addr now [] = none
refresh_entry node_id addr now (e ∷ entries) =
    let rest = refresh_entry node_id addr now entries in
    ite (node_eq e.node_id node_id) (some (record e { last_seen = now; addr = addr } ∷ entries))
      (Option.map (λ r. e ∷ r) rest)

-- The bucket, and `Ok(is_new)` or the entry that had no room.
unfoldable pub insert : KBucket → NodeId → List ℕ → ℕ → KBucket × Result BucketEntry Bool
insert b node_id addr now =
    let entry : BucketEntry = record { node_id = node_id; addr = addr; last_seen = now } in
    elim (refresh_entry node_id addr now b.entries) [
      | some entries ↦ (record b { entries = entries }, ok false)
      | none ↦
          if ltb (length b.entries) b.capacity
          then (record b { entries = b.entries ++ (entry ∷ []) }, ok true)
          else (b, err entry)
    ]

-- The first entry of the node, taken out.
unfoldable pub take_out : NodeId → List BucketEntry → Option (BucketEntry × List BucketEntry)
take_out node_id [] = none
take_out node_id (e ∷ entries) =
    let rest = take_out node_id entries in
    ite (node_eq e.node_id node_id) (some (e, entries)) (Option.map (λ r. (r.0, e ∷ r.1)) rest)

unfoldable pub touch : KBucket → NodeId → ℕ → KBucket × Bool
touch b node_id now = elim (take_out node_id b.entries) [
  | none ↦ (b, false)
  | some (e, entries) ↦
      (record b { entries = entries ++ (record e { last_seen = now } ∷ []) }, true)
]

unfoldable pub remove : KBucket → NodeId → KBucket × Option BucketEntry
remove b node_id = elim (take_out node_id b.entries) [
  | none ↦ (b, none)
  | some (e, entries) ↦ (record b { entries = entries }, some e)
]

unfoldable pub is_full : KBucket → Bool
is_full b = leb b.capacity (length b.entries)

unfoldable pub least_recently_seen : KBucket → Option BucketEntry
least_recently_seen b = first b.entries
  where
    first : List BucketEntry → Option BucketEntry
    first [] = none
    first (e ∷ entries) = some e

unfoldable pub clear : KBucket → KBucket
clear b = record b { entries = [] }
