-- ===== src/Vpn/Dht/Bucket/Invariant.antt =====
-- The invariant of a `KBucket`, and what its order says (crates/vpn/src/vpn/dht.rs).
use mathlib.Core.Option
use lan_link.Prelude.{
  ℕ, ◌≤◌, ◌<◌, ◌≡◌, ◌⊎◌, inl, inr, refl, ap, sym, subst, List, [], ◌∷◌, map, length, length-append,
  Bool, false, Option, none, some, ltb, arith,
}
use lan_link.Prelude.Branches.{on_if, on_option, on_dec}
use lan_link.Prelude.Result.{Result, ok, err}
use lan_link.Vpn.Identity.{NodeId, node_eq}
use lan_link.Vpn.Dht.Bucket.{
  BucketEntry, KBucket, new, refresh_entry, insert, take_out, touch, remove, clear,
}
use lan_link.Vpn.Dht.Bucket.Distinct.{
  Absent, IsDistinct, Refreshed, refresh_entry-Refreshed, TakenOut, take_out-TakenOut,
  IsDistinct-append,
}

pub data Call : Type 0 where
  inserts : NodeId → List ℕ → ℕ → Call
  touches : NodeId → ℕ → Call
  removes : NodeId → Call
  clears : Call

unfoldable pub step : KBucket → Call → KBucket
step b (inserts id addr now) = (insert b id addr now).0
step b (touches id now) = (touch b id now).0
step b (removes id) = (remove b id).0
step b clears = clear b

unfoldable pub run : KBucket → List Call → KBucket
run b [] = b
run b (call ∷ calls) = run (step b call) calls

-- At most `n` entries, all of different nodes.
abbrev pub IsValid : ℕ → KBucket → Type 0
IsValid n b = (b.capacity ≡ n) × (length b.entries ≤ n) × IsDistinct b.entries

pub insert-IsValid :
    (n : ℕ) (b : KBucket) (id : NodeId) (addr : List ℕ) (now : ℕ)
    → IsValid n b
    → IsValid n (insert b id addr now).0
unfolding insert
insert-IsValid n b id addr now v =
    let P : KBucket × Result BucketEntry Bool → Type 0 = λ r. IsValid n r.0 in
    let entry : BucketEntry = record { node_id = id; addr = addr; last_seen = now } in
    let found = refresh_entry-Refreshed id addr now b.entries in
    on_option P (refresh_entry id addr now b.entries)
      (λ e.
        let absent = subst (Refreshed id b.entries) e found in
        on_if P (ltb (length b.entries) b.capacity)
          (λ room.
            let less : length b.entries < b.capacity = ground arith in
            (
              v.0,
              omega (arith, less, v.0, length-append b.entries (entry ∷ [])),
              IsDistinct-append b.entries entry v.2 absent,
            ))
          (λ _. v))
      (λ entries e.
        let same = subst (Refreshed id b.entries) e found in
        (v.0, omega (arith, same.0, v.1), same.2 v.2))

pub touch-IsValid :
    (n : ℕ) (b : KBucket) (id : NodeId) (now : ℕ) → IsValid n b → IsValid n (touch b id now).0
unfolding touch
touch-IsValid n b id now v =
    let P : KBucket × Bool → Type 0 = λ r. IsValid n r.0 in
    on_option P (take_out id b.entries) (λ _. v)
      (λ r e.
        let out = subst (TakenOut id b.entries) e (take_out-TakenOut id b.entries) in
        let parts = out.3 v.2 in
        let entry : BucketEntry = record r.0 { last_seen = now } in
        (
          v.0,
          omega (arith, out.0, v.1, length-append r.1 (entry ∷ [])),
          IsDistinct-append r.1 entry parts.1 (subst (λ k. Absent k r.1) (sym out.1) parts.0),
        ))

pub remove-IsValid : (n : ℕ) (b : KBucket) (id : NodeId) → IsValid n b → IsValid n (remove b id).0
unfolding remove
remove-IsValid n b id v =
    let P : KBucket × Option BucketEntry → Type 0 = λ r. IsValid n r.0 in
    on_option P (take_out id b.entries) (λ _. v)
      (λ r e.
        let out = subst (TakenOut id b.entries) e (take_out-TakenOut id b.entries) in
        (v.0, omega (arith, out.0, v.1), (out.3 v.2).1))

step-IsValid : (n : ℕ) (b : KBucket) (call : Call) → IsValid n b → IsValid n (step b call)
unfolding step clear
step-IsValid n b (inserts id addr now) v = insert-IsValid n b id addr now v
step-IsValid n b (touches id now) v = touch-IsValid n b id now v
step-IsValid n b (removes id) v = remove-IsValid n b id v
step-IsValid n b clears v = (v.0, omega arith, tt)

run_from-IsValid : (n : ℕ) (b : KBucket) (calls : List Call) → IsValid n b → IsValid n (run b calls)
unfolding run
run_from-IsValid n b [] v = v
run_from-IsValid n b (call ∷ calls) v =
    run_from-IsValid n (step b call) calls (step-IsValid n b call v)

-- Whatever calls are made of a new bucket, it holds at most as many nodes as its capacity, and none
-- of them twice.
pub run-IsValid : (n : ℕ) (calls : List Call) → IsValid n (run (new n) calls)
unfolding new
run-IsValid n calls = run_from-IsValid n (new n) calls (refl, omega arith, tt)

-- The nodes of the entries, in their order.
abbrev pub nodes_of : List BucketEntry → List NodeId
nodes_of = map (λ e. BucketEntry.node_id e)

SameNodes : List BucketEntry → Option (List BucketEntry) → Type 0
SameNodes entries none = Unit
SameNodes entries (some r) = nodes_of r ≡ nodes_of entries

SameNodes-map :
    (e : BucketEntry) (entries : List BucketEntry) (o : Option (List BucketEntry))
    → SameNodes entries o
    → SameNodes (e ∷ entries) (Option.map (λ r. e ∷ r) o)
unfolding SameNodes
SameNodes-map e entries none h = tt
SameNodes-map e entries (some r) h = ap (◌∷◌ e.node_id) h

refresh_entry-SameNodes :
    (id : NodeId) (addr : List ℕ) (now : ℕ) (entries : List BucketEntry)
    → SameNodes entries (refresh_entry id addr now entries)
unfolding refresh_entry SameNodes
refresh_entry-SameNodes id addr now [] = tt
refresh_entry-SameNodes id addr now (e ∷ entries) =
    on_dec (SameNodes (e ∷ entries)) (node_eq e.node_id id) (λ _. refl)
      (λ _.
        SameNodes-map e entries (refresh_entry id addr now entries)
          (refresh_entry-SameNodes id addr now entries))

-- An insertion of a node that the bucket knows, or into a full bucket, leaves the nodes in the order
-- that they had; in a full bucket, what it returns for a node that it does not know is that node.
pub insert-order :
    (b : KBucket) (id : NodeId) (addr : List ℕ) (now : ℕ)
    → b.capacity ≤ length b.entries
    → (nodes_of (insert b id addr now).0.entries ≡ nodes_of b.entries)
      × (((insert b id addr now).1 ≡ ok false)
          ⊎ ((insert b id addr now).1
              ≡ err (record { node_id = id; addr = addr; last_seen = now })))
unfolding insert SameNodes
insert-order b id addr now full =
    let entry : BucketEntry = record { node_id = id; addr = addr; last_seen = now } in
    let P : KBucket × Result BucketEntry Bool → Type 0 =
      λ r. (nodes_of r.0.entries ≡ nodes_of b.entries) × ((r.1 ≡ ok false) ⊎ (r.1 ≡ err entry)) in
    on_option P (refresh_entry id addr now b.entries)
      (λ _.
        on_if P (ltb (length b.entries) b.capacity) (λ room. absurd (ground arith))
          (λ _. (refl, inr refl)))
      (λ entries e.
        (subst (SameNodes b.entries) e (refresh_entry-SameNodes id addr now b.entries), inl refl))
