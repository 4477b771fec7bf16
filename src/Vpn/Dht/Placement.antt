-- ===== src/Vpn/Dht/Placement.antt =====
-- What every use of the hash table keeps (crates/vpn/src/vpn/dht.rs).

use lan_link.Prelude.{
  ℕ, zero, suc, ◌+◌, ◌≡◌, ◌≢◌, refl, ap, sym, ◌∙◌, subst, List, [], ◌∷◌, length, replicate, Bool,
  Option, arith,
}
use lan_link.Prelude.Branches.{on_option, on_dec}
use lan_link.Prelude.Result.{Result}
use lan_link.Vpn.Identity.{NodeId, node_eq}
use lan_link.Vpn.Relay.{Message}
use lan_link.Vpn.Dht.Bucket.{BucketEntry, KBucket}
use lan_link.Vpn.Dht.Bucket
use lan_link.Vpn.Dht.Bucket.Invariant.{IsValid, insert-IsValid, touch-IsValid, remove-IsValid}
use lan_link.Vpn.Dht.Bucket.Kept.{AllIds, insert-AllIds, touch-AllIds, remove-AllIds}
use lan_link.Vpn.Dht.Distance.{bucket_count, bucket_index}
use lan_link.Vpn.Dht.Manager.{
  DhtManager, k_bucket_size, change_at, insert_node, touch_node, remove_node, bootstrap_from_nodes,
  remove_each, stale_nodes, refresh_buckets, refresh, put_value, cleanup_values,
}
use lan_link.Vpn.Dht.Manager
use lan_link.Vpn.Dht.NodeList.{decode_node_list}
use lan_link.Vpn.Dht.Messages.{
  DhtMessageType, insert_all, handle_put, on_type, process_message, from_u8,
}

module _ (local_id : NodeId) where
  -- The node belongs into bucket `i`, and is not the local one.
  abbrev pub Belongs : ℕ → NodeId → Type 0
  Belongs i id = (bucket_index local_id id ≡ i) × (id ≢ local_id)

  abbrev pub IsPlaced : ℕ → KBucket → Type 0
  IsPlaced i b = IsValid k_bucket_size b × AllIds (Belongs i) b.entries

  -- The buckets from `i` on.
  abbrev pub ArePlaced : ℕ → List KBucket → Type 0
  ArePlaced i [] = Unit
  ArePlaced i (b ∷ buckets) = IsPlaced i b × ArePlaced (suc i) buckets

  ArePlaced-new : (i n : ℕ) → ArePlaced i (replicate n (Bucket.new k_bucket_size))
  ArePlaced-new i zero = tt
  ArePlaced-new i (suc n) =
      (unfold Bucket.new in ((refl, omega arith, tt), tt), ArePlaced-new (suc i) n)

  ArePlaced-change_at :
      (k i target : ℕ) (f : KBucket → KBucket) (buckets : List KBucket)
      → i + k ≡ target
      → ((b : KBucket) → IsPlaced target b → IsPlaced target (f b))
      → ArePlaced i buckets
      → ArePlaced i (change_at k f buckets)
  unfolding change_at
  ArePlaced-change_at zero i target f [] e h p = tt
  ArePlaced-change_at (suc k) i target f [] e h p = tt
  ArePlaced-change_at zero i target f (b ∷ buckets) e h p =
      let same : i ≡ target = omega arith in
      (subst (λ j. IsPlaced j (f b)) (sym same) (h b (subst (λ j. IsPlaced j b) same p.0)), p.1)
  ArePlaced-change_at (suc k) i target f (b ∷ buckets) e h p =
      (p.0, ArePlaced-change_at k (suc i) target f buckets (omega arith) h p.1)

-- What every use of the table keeps: 256 buckets of at most 20 nodes, none twice, each in the bucket
-- of its distance.
abbrev pub IsTable : NodeId → DhtManager → Type 0
IsTable local_id m =
    (m.local_id ≡ local_id) × (length m.buckets ≡ bucket_count) × ArePlaced local_id 0 m.buckets

length-change_at :
    (k : ℕ) (f : KBucket → KBucket) (buckets : List KBucket)
    → length (change_at k f buckets) ≡ length buckets
unfolding change_at
length-change_at zero f [] = refl
length-change_at (suc k) f [] = refl
length-change_at zero f (b ∷ buckets) = refl
length-change_at (suc k) f (b ∷ buckets) = ap suc (length-change_at k f buckets)

changes :
    (l : NodeId) (m : DhtManager) (id : NodeId) (f : KBucket → KBucket)
    → IsTable l m
    → ((b : KBucket) → IsPlaced l (bucket_index l id) b → IsPlaced l (bucket_index l id) (f b))
    → IsTable l (record m { buckets = change_at (bucket_index m.local_id id) f m.buckets })
changes l m id f t h =
    let k = bucket_index m.local_id id in
    (
      t.0,
      length-change_at k f m.buckets ∙ t.1,
      ArePlaced-change_at l k 0 (bucket_index l id) f m.buckets
          (omega (arith, ap (λ i. bucket_index i id) t.0)) h t.2,
    )

insert_node-IsTable :
    (l : NodeId) (m : DhtManager) (id : NodeId) (addr : List ℕ) (now : ℕ)
    → IsTable l m
    → IsTable l (insert_node m id addr now).0
unfolding insert_node
insert_node-IsTable l m id addr now t =
    on_dec (λ (r : DhtManager × Result (Option BucketEntry) Bool). IsTable l r.0)
      (node_eq id m.local_id) (λ _. t)
      (λ n.
        changes l m id (λ b. (Bucket.insert b id addr now).0) t
          (λ b p. (
            insert-IsValid k_bucket_size b id addr now p.0,
            insert-AllIds (Belongs l (bucket_index l id)) b id addr now (refl, λ e. n (e ∙ sym t.0))
                p.1,
          )))

touch_node-IsTable :
    (l : NodeId) (m : DhtManager) (id : NodeId) (now : ℕ)
    → IsTable l m
    → IsTable l (touch_node m id now).0
unfolding touch_node
touch_node-IsTable l m id now t =
    on_dec (λ (r : DhtManager × Bool). IsTable l r.0) (node_eq id m.local_id) (λ _. t)
      (λ n.
        changes l m id (λ b. (Bucket.touch b id now).0) t
          (λ b p. (
            touch-IsValid k_bucket_size b id now p.0,
            touch-AllIds (Belongs l (bucket_index l id)) b id now p.1,
          )))

remove_node-IsTable :
    (l : NodeId) (m : DhtManager) (id : NodeId) → IsTable l m → IsTable l (remove_node m id).0
unfolding remove_node
remove_node-IsTable l m id t =
    on_dec (λ (r : DhtManager × Option BucketEntry). IsTable l r.0) (node_eq id m.local_id) (λ _. t)
      (λ n.
        changes l m id (λ b. (Bucket.remove b id).0) t
          (λ b p. (
            remove-IsValid k_bucket_size b id p.0,
            remove-AllIds (Belongs l (bucket_index l id)) b id p.1,
          )))

bootstrap-IsTable :
    (l : NodeId) (m : DhtManager) (nodes : List (List ℕ)) (now : ℕ)
    → IsTable l m
    → IsTable l (bootstrap_from_nodes m nodes now)
unfolding bootstrap_from_nodes
bootstrap-IsTable l m [] now t = t
bootstrap-IsTable l m (addr ∷ nodes) now t =
    bootstrap-IsTable l (insert_node m (replicate 32 0) addr now).0 nodes now
      (insert_node-IsTable l m (replicate 32 0) addr now t)

insert_all-IsTable :
    (l : NodeId) (m : DhtManager) (nodes : List (NodeId × List ℕ)) (now : ℕ)
    → IsTable l m
    → IsTable l (insert_all m nodes now)
unfolding insert_all
insert_all-IsTable l m [] now t = t
insert_all-IsTable l m ((id, addr) ∷ nodes) now t =
    insert_all-IsTable l (insert_node m id addr now).0 nodes now
      (insert_node-IsTable l m id addr now t)

remove_each-IsPlaced :
    (l : NodeId) (i : ℕ) (stale : List BucketEntry) (b : KBucket)
    → IsPlaced l i b
    → IsPlaced l i (remove_each stale b)
unfolding remove_each
remove_each-IsPlaced l i [] b p = p
remove_each-IsPlaced l i (e ∷ stale) b p =
    remove_each-IsPlaced l i stale (Bucket.remove b e.node_id).0
      (remove-IsValid k_bucket_size b e.node_id p.0, remove-AllIds (Belongs l i) b e.node_id p.1)

refresh-ArePlaced :
    (l : NodeId) (i : ℕ) (buckets : List KBucket) (now : ℕ)
    → ArePlaced l i buckets
    → ArePlaced l i (refresh_buckets buckets now).0
      × (length (refresh_buckets buckets now).0 ≡ length buckets)
unfolding refresh_buckets
refresh-ArePlaced l i [] now p = (tt, refl)
refresh-ArePlaced l i (b ∷ buckets) now p =
    let rest = refresh-ArePlaced l (suc i) buckets now p.1 in
    ((remove_each-IsPlaced l i (stale_nodes b now) b p.0, rest.0), ap suc rest.1)

pub data Call : Type 0 where
  inserts : NodeId → List ℕ → ℕ → Call
  touches : NodeId → ℕ → Call
  removes : NodeId → Call
  bootstraps : List (List ℕ) → ℕ → Call
  refreshes : ℕ → Call
  puts : List ℕ → List ℕ → ℕ → ℕ → Call
  cleans : ℕ → Call
  receives : NodeId → List ℕ → ℕ → ℕ → Call

module _ (sha256 : List ℕ → List ℕ) where
  unfoldable pub step : DhtManager → Call → DhtManager
  step m (inserts id addr now) = (insert_node m id addr now).0
  step m (touches id now) = (touch_node m id now).0
  step m (removes id) = (remove_node m id).0
  step m (bootstraps nodes now) = bootstrap_from_nodes m nodes now
  step m (refreshes now) = (refresh m now).0
  step m (puts key value ttl now) = (put_value sha256 m key value ttl now).0
  step m (cleans now) = (cleanup_values m now).0
  step m (receives sender bytes now secs) = (process_message sha256 m sender bytes now secs).0

  unfoldable pub run : DhtManager → List Call → DhtManager
  run m [] = m
  run m (call ∷ calls) = run (step m call) calls

  on_type-IsTable :
      (l : NodeId) (type : DhtMessageType) (m : DhtManager) (sender : NodeId) (bytes : List ℕ)
      (now secs : ℕ)
      → IsTable l m
      → IsTable l (on_type sha256 type m sender bytes now secs).0
  unfolding on_type
  on_type-IsTable l DhtMessageType.ping m sender bytes now secs t =
      touch_node-IsTable l m sender now t
  on_type-IsTable l DhtMessageType.pong m sender bytes now secs t =
      touch_node-IsTable l m sender now t
  on_type-IsTable l DhtMessageType.find_node_ m sender bytes now secs t = t
  on_type-IsTable l DhtMessageType.nodes_ m sender bytes now secs t =
      insert_all-IsTable l m (decode_node_list bytes) now t
  on_type-IsTable l DhtMessageType.put m sender bytes now secs t =
      unfold handle_put in unfold put_value in (ground arith)
  on_type-IsTable l DhtMessageType.get m sender bytes now secs t = t
  on_type-IsTable l DhtMessageType.value_ m sender bytes now secs t = t

  step-IsTable : (l : NodeId) (m : DhtManager) (call : Call) → IsTable l m → IsTable l (step m call)
  unfolding step refresh put_value cleanup_values process_message
  step-IsTable l m (inserts id addr now) t = insert_node-IsTable l m id addr now t
  step-IsTable l m (touches id now) t = touch_node-IsTable l m id now t
  step-IsTable l m (removes id) t = remove_node-IsTable l m id t
  step-IsTable l m (bootstraps nodes now) t = bootstrap-IsTable l m nodes now t
  step-IsTable l m (refreshes now) t =
      let r = refresh-ArePlaced l 0 m.buckets now t.2 in (t.0, r.1 ∙ t.1, r.0)
  step-IsTable l m (puts key value ttl now) t = t
  step-IsTable l m (cleans now) t = t
  step-IsTable l m (receives sender [] now secs) t = t
  step-IsTable l m (receives sender (b ∷ bytes) now secs) t =
      on_option (λ (r : DhtManager × List Message). IsTable l r.0) (from_u8 b) (λ _. t)
        (λ type _. on_type-IsTable l type m sender bytes now secs t)

  run_from-IsTable :
      (l : NodeId) (m : DhtManager) (calls : List Call) → IsTable l m → IsTable l (run m calls)
  unfolding run
  run_from-IsTable l m [] t = t
  run_from-IsTable l m (call ∷ calls) t =
      run_from-IsTable l (step m call) calls (step-IsTable l m call t)

  -- Whatever is called and whatever messages arrive, a new table keeps its 256 buckets, each with at
  -- most 20 nodes and none of them twice; every node is in the bucket of its distance from the local
  -- node, which is in none.
  pub run-IsTable :
      (local_id : NodeId) (calls : List Call) → IsTable local_id (run (Manager.new local_id) calls)
  unfolding Manager.new
  run-IsTable local_id calls =
      run_from-IsTable local_id (Manager.new local_id) calls
        (refl, refl, ArePlaced-new local_id 0 bucket_count)
