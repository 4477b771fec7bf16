-- ===== src/Vpn/Dht/Bucket/Kept.antt =====
-- What holds of all nodes of a `KBucket` and of a new one still holds after each call
-- (crates/vpn/src/vpn/dht.rs).
use mathlib.Core.Option
use lan_link.Prelude.{ℕ, subst, List, [], ◌∷◌, ◌++◌, length, All, Bool, Option, none, some, ltb}
use lan_link.Prelude.Branches.{on_if, on_option, on_dec}
use lan_link.Prelude.Result.{Result}
use lan_link.Vpn.Identity.{NodeId, node_eq}
use lan_link.Vpn.Dht.Bucket.{BucketEntry, KBucket, refresh_entry, insert, take_out, touch, remove}

module _ (Q : NodeId → Type 0) where
  abbrev pub AllIds : List BucketEntry → Type 0
  AllIds = All (λ e. Q (BucketEntry.node_id e))

  abbrev Entries : Option (List BucketEntry) → Type 0
  Entries none = Unit
  Entries (some entries) = AllIds entries

  Entries-map :
      (e : BucketEntry) (o : Option (List BucketEntry))
      → Q e.node_id
      → Entries o
      → Entries (Option.map (λ r. e ∷ r) o)
  Entries-map e none q h = tt
  Entries-map e (some r) q h = (q, h)

  refresh_entry-Entries :
      (id : NodeId) (addr : List ℕ) (now : ℕ) (entries : List BucketEntry)
      → AllIds entries
      → Entries (refresh_entry id addr now entries)
  unfolding refresh_entry
  refresh_entry-Entries id addr now [] a = tt
  refresh_entry-Entries id addr now (e ∷ entries) a =
      on_dec Entries (node_eq e.node_id id) (λ _. a)
        (λ _.
          Entries-map e (refresh_entry id addr now entries) a.0
            (refresh_entry-Entries id addr now entries a.1))

  abbrev Out : Option (BucketEntry × List BucketEntry) → Type 0
  Out none = Unit
  Out (some r) = Q r.0.node_id × AllIds r.1

  Out-map :
      (e : BucketEntry) (o : Option (BucketEntry × List BucketEntry))
      → Q e.node_id
      → Out o
      → Out (Option.map (λ r. (r.0, e ∷ r.1)) o)
  Out-map e none q h = tt
  Out-map e (some r) q h = (h.0, (q, h.1))

  take_out-Out :
      (id : NodeId) (entries : List BucketEntry) → AllIds entries → Out (take_out id entries)
  unfolding take_out
  take_out-Out id [] a = tt
  take_out-Out id (e ∷ entries) a =
      on_dec Out (node_eq e.node_id id) (λ _. a)
        (λ _. Out-map e (take_out id entries) a.0 (take_out-Out id entries a.1))

  AllIds-snoc :
      (entries : List BucketEntry) (e : BucketEntry)
      → AllIds entries
      → Q e.node_id
      → AllIds (entries ++ (e ∷ []))
  AllIds-snoc [] e a q = (q, tt)
  AllIds-snoc (x ∷ entries) e a q = (a.0, AllIds-snoc entries e a.1 q)

  pub insert-AllIds :
      (b : KBucket) (id : NodeId) (addr : List ℕ) (now : ℕ)
      → Q id
      → AllIds b.entries
      → AllIds (insert b id addr now).0.entries
  unfolding insert
  insert-AllIds b id addr now q a =
      let entry : BucketEntry = record { node_id = id; addr = addr; last_seen = now } in
      let P : KBucket × Result BucketEntry Bool → Type 0 = λ r. AllIds r.0.entries in
      on_option P (refresh_entry id addr now b.entries)
        (λ _.
          on_if P (ltb (length b.entries) b.capacity) (λ _. AllIds-snoc b.entries entry a q)
            (λ _. a))
        (λ r e. subst Entries e (refresh_entry-Entries id addr now b.entries a))

  pub touch-AllIds :
      (b : KBucket) (id : NodeId) (now : ℕ) → AllIds b.entries → AllIds (touch b id now).0.entries
  unfolding touch
  touch-AllIds b id now a =
      let P : KBucket × Bool → Type 0 = λ r. AllIds r.0.entries in
      on_option P (take_out id b.entries) (λ _. a)
        (λ r e.
          let out = subst Out e (take_out-Out id b.entries a) in
          AllIds-snoc r.1 (record r.0 { last_seen = now }) out.1 out.0)

  pub remove-AllIds :
      (b : KBucket) (id : NodeId) → AllIds b.entries → AllIds (remove b id).0.entries
  unfolding remove
  remove-AllIds b id a =
      let P : KBucket × Option BucketEntry → Type 0 = λ r. AllIds r.0.entries in
      on_option P (take_out id b.entries) (λ _. a)
        (λ r e. (subst Out e (take_out-Out id b.entries a)).1)
