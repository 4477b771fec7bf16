-- ===== src/Vpn/Multihop/Capacity.antt =====
-- The bound on the routes of a table (crates/vpn/src/vpn/multihop.rs).

use lan_link.Prelude.{
  ℕ, ◌-◌, ◌<◌, ◌≤◌, ◌≡◌, ◌≢◌, ◌⊎◌, inl, inr, refl, ap, List, [], ◌∷◌, length, some, ltb, if_pos,
  if_neg, arith,
}
use lan_link.Prelude.Branches.{on_if, on_option, on_dec}
use lan_link.Prelude.Assoc
use lan_link.Prelude.Assoc.{length-insert_le, length-remove_le, length-modify}
use lan_link.Prelude.Result.{Result, on_result}
use lan_link.Vpn.Identity.{NodeId, node_eq}
use lan_link.Vpn.Dht.Manager.{DhtManager, find_node}
use lan_link.Vpn.Multihop.{
  second, sort_nodes, MultiHopEntry, Routes, MultihopManager, RouterError, set_dht, oldest,
  evict_oldest, insert_or_evict,
}
use lan_link.Vpn.Multihop.Manager.{
  discovered, next_best, discover_route, add_direct_route, remove_route, expires, mark_invalid,
  find_alternative, switched, refresh_each, refresh_stale_routes, retain_fresh, cleanup_expired,
}

-- The node has a route.
abbrev Has : NodeId → Routes → Type 0
Has k [] = ⊥
Has k ((t, e) ∷ routes) = (k ≡ t) ⊎ Has k routes

oldest-Has :
    (t : NodeId) (at : ℕ) (routes : Routes)
    → (oldest t at routes ≡ t) ⊎ Has (oldest t at routes) routes
unfolding oldest
oldest-Has t at [] = inl refl
oldest-Has t at ((u, e) ∷ routes) =
    on_if (λ k. (k ≡ t) ⊎ ((k ≡ u) ⊎ Has k routes)) (ltb e.last_active at)
      (λ h. inr (oldest-Has u e.last_active routes))
      (λ h. elim (oldest-Has t at routes) [ inl p ↦ inl p | inr i ↦ inr (inr i) ])

Has-ne :
    (k t : NodeId) (e : MultiHopEntry) (routes : Routes)
    → k ≢ t
    → Has k ((t, e) ∷ routes)
    → Has k routes
Has-ne k t e routes n (inl p) = absurd (n p)
Has-ne k t e routes n (inr j) = j

length-remove_lt :
    (k : NodeId) (routes : Routes)
    → Has k routes
    → length (Assoc.remove node_eq k routes) < length routes
unfolding Assoc.remove
length-remove_lt k [] i = absurd i
length-remove_lt k ((t, e) ∷ routes) i = elim (node_eq k t) [
  | yes p ↦
      let le = length-remove_le node_eq k routes in
      let same : Assoc.remove node_eq k ((t, e) ∷ routes) ≡ Assoc.remove node_eq k routes =
        if_pos (node_eq k t) p _ _ in
      omega (arith, le, ap length same)
  | no n ↦
      let lt = length-remove_lt k routes (Has-ne k t e routes n i) in
      let same : Assoc.remove node_eq k ((t, e) ∷ routes) ≡ (t, e) ∷ Assoc.remove node_eq k routes =
        if_neg (node_eq k t) n _ _ in
      omega (arith, lt, ap length same)
]

length-evict_oldest :
    (routes : Routes) → 0 < length routes → length (evict_oldest routes) < length routes
unfolding evict_oldest
length-evict_oldest [] h = absurd (omega arith)
length-evict_oldest ((t, e) ∷ routes) h =
    length-remove_lt (oldest t e.last_active routes) ((t, e) ∷ routes)
      (oldest-Has t e.last_active routes)

-- What stands there already is replaced.
length-insert_found :
    (k : NodeId) (e : MultiHopEntry) (v : MultiHopEntry) (routes : Routes)
    → Assoc.lookup node_eq k routes ≡ some v
    → length (Assoc.insert node_eq k e routes) ≡ length routes
unfolding Assoc.insert Assoc.lookup
length-insert_found k e v [] h = absurd (cc)
length-insert_found k e v ((t, f) ∷ routes) h = elim (node_eq k t) [
  | yes p ↦ ground arith
  | no n ↦ let ih = length-insert_found k e v routes (ground arith) in ground (arith, ih)
]

-- The table is not over its bound, which is not 0.
abbrev pub IsWithin : MultihopManager → Type 0
IsWithin m = (length m.routes ≤ m.max_entries) × (0 < m.max_entries)

insert_or_evict-IsWithin :
    (m : MultihopManager) (entry : MultiHopEntry) → IsWithin m → IsWithin (insert_or_evict m entry)
unfolding insert_or_evict
insert_or_evict-IsWithin m entry w =
    let put = length-insert_le node_eq entry.target entry m.routes in
    let swap = length-insert_le node_eq entry.target entry (evict_oldest m.routes) in
    on_option IsWithin (Assoc.lookup node_eq entry.target m.routes)
      (λ none_there.
        on_if IsWithin (ltb (length m.routes) m.max_entries)
          (λ h.
            let room : length m.routes < m.max_entries = ground arith in
            (omega (arith, put, room, w.1), w.1))
          (λ h.
            let full : ¬ (length m.routes < m.max_entries) = ground arith in
            let less = length-evict_oldest m.routes (omega (arith, full, w.1)) in
            (omega (arith, swap, less, w.0), w.1)))
      (λ v h.
        let same = length-insert_found entry.target entry v m.routes h in
        (omega (arith, same, w.0), w.1))

abbrev Kept : MultihopManager × Result RouterError (Unit {0}) → Type 0
Kept r = IsWithin r.0

discover_route-IsWithin :
    (m : MultihopManager) (target : NodeId) (now : ℕ)
    → IsWithin m
    → IsWithin (discover_route m target now).0
unfolding discover_route
discover_route-IsWithin m target now w =
    on_dec Kept (node_eq target m.local_id) (λ p. w)
      (λ n.
        on_option Kept m.dht (λ e. w)
          (λ dht e.
            on_option Kept (discovered target (sort_nodes target (find_node dht target)) now)
              (λ f. w) (λ entry f. insert_or_evict-IsWithin m entry w)))

find_alternative-IsWithin :
    (m : MultihopManager) (target : NodeId) (now : ℕ)
    → IsWithin m
    → IsWithin (find_alternative m target now).0
unfolding find_alternative
find_alternative-IsWithin m target now w =
    on_option Kept (Assoc.lookup node_eq target m.routes) (λ e. w)
      (λ old e.
        on_option Kept (next_best old.next_hop m.local_id old.candidates) (λ f. w)
          (λ n f.
            let same = length-insert_found target (switched old target n.0 now) old m.routes e in
            (omega (arith, same, w.0), w.1)))

expires-IsWithin :
    (m : MultihopManager) (target : NodeId) (at : ℕ) → IsWithin m → IsWithin (expires m target at)
unfolding expires
expires-IsWithin m target at w =
    let same = length-modify node_eq target (λ e. record e { expires_at = at }) m.routes in
    (omega (arith, same, w.0), w.1)

refresh_each-IsWithin :
    (targets : List NodeId) (m : MultihopManager) (now : ℕ)
    → IsWithin m
    → IsWithin (refresh_each m targets now).0
unfolding refresh_each
refresh_each-IsWithin [] m now w = w
refresh_each-IsWithin (target ∷ targets) m now w =
    on_result (λ (x : MultihopManager × ℕ). IsWithin x.0) (discover_route m target now).1
      (λ e. refresh_each-IsWithin targets (expires m target _) now (expires-IsWithin m target _ w))
      (λ u.
        refresh_each-IsWithin targets (discover_route m target now).0 now
          (discover_route-IsWithin m target now w))

length-retain_fresh_le :
    (routes : Routes) (now : ℕ) → length (retain_fresh routes now) ≤ length routes
unfolding retain_fresh
length-retain_fresh_le [] now = omega arith
length-retain_fresh_le ((t, e) ∷ routes) now = ground (arith, length-retain_fresh_le routes now)

-- The calls that change a table, each with its time.
pub data Call : Type 0 where
  inserts : MultiHopEntry → Call
  adds : NodeId → List ℕ → Call
  binds : DhtManager → Call
  discovers removes invalidates alternates : NodeId → Call
  refreshes cleans : Call

unfoldable pub call : MultihopManager → Call → ℕ → MultihopManager
call m (Call.inserts entry) now = insert_or_evict m entry
call m (Call.adds target addr) now = add_direct_route m target addr now
call m (Call.binds dht) now = set_dht m dht
call m (Call.discovers target) now = (discover_route m target now).0
call m (Call.removes target) now = (remove_route m target).0
call m (Call.invalidates target) now = mark_invalid m target now
call m (Call.alternates target) now = (find_alternative m target now).0
call m Call.refreshes now = (refresh_stale_routes m now).0
call m Call.cleans now = (cleanup_expired m now).0

call-IsWithin : (m : MultihopManager) (c : Call) (now : ℕ) → IsWithin m → IsWithin (call m c now)
unfolding call add_direct_route set_dht remove_route mark_invalid refresh_stale_routes
    cleanup_expired
call-IsWithin m (Call.inserts entry) now w = insert_or_evict-IsWithin m entry w
call-IsWithin m (Call.adds target addr) now w =
    on_dec IsWithin (node_eq target m.local_id) (λ p. w) (λ n. insert_or_evict-IsWithin m _ w)
call-IsWithin m (Call.binds dht) now w = w
call-IsWithin m (Call.discovers target) now w = discover_route-IsWithin m target now w
call-IsWithin m (Call.removes target) now w =
    let le = length-remove_le node_eq target m.routes in (omega (arith, le, w.0), w.1)
call-IsWithin m (Call.invalidates target) now w = expires-IsWithin m target (now - second) w
call-IsWithin m (Call.alternates target) now w = find_alternative-IsWithin m target now w
call-IsWithin m Call.refreshes now w = refresh_each-IsWithin _ m now w
call-IsWithin m Call.cleans now w =
    let le = length-retain_fresh_le m.routes now in
    on_if (λ (x : MultihopManager × ℕ). IsWithin x.0) _ (λ h. w)
      (λ h. (omega (arith, le, w.0), w.1))

unfoldable pub calls : MultihopManager → List (Call × ℕ) → MultihopManager
calls m [] = m
calls m ((c, now) ∷ cs) = calls (call m c now) cs

-- Whatever calls have changed a table whose bound is not 0, it has no more routes than its bound.
pub calls-IsWithin :
    (cs : List (Call × ℕ)) (m : MultihopManager) → IsWithin m → IsWithin (calls m cs)
unfolding calls
calls-IsWithin [] m w = w
calls-IsWithin ((c, now) ∷ cs) m w = calls-IsWithin cs (call m c now) (call-IsWithin m c now w)
