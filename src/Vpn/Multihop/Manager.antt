-- ===== src/Vpn/Multihop/Manager.antt =====
-- The methods of `MultihopManager` (crates/vpn/src/vpn/multihop.rs).

use lan_link.Prelude.{
  ℕ, suc, ◌+◌, ◌-◌, ◌*◌, List, [], ◌∷◌, length, take, Option, none, some, ltb, if◌then◌else◌, ite,
}
use lan_link.Prelude.Assoc
use lan_link.Prelude.Result.{Result, ok, err}
use lan_link.Vpn.Identity.{NodeId, node_eq}
use lan_link.Vpn.Routing.{ConnectionType}
use lan_link.Vpn.Dht.Manager.{find_node}
use lan_link.Vpn.Multihop.{
  second, default_route_timeout_secs, cleanup_interval_secs, k_candidates_max, Node, MultiHopEntry,
  RouterError, calculate_metric, new_entry, is_expired, Routes, MultihopManager, sort_nodes, others,
  insert_or_evict,
}

-- The route that is made from the sorted nodes, if there is one.
unfoldable pub discovered : NodeId → List Node → ℕ → Option MultiHopEntry
unfolding others new_entry
discovered target [] now = none
discovered target (next ∷ rest) now =
    let fallback = take k_candidates_max (others next.0 rest) in
    some (
      ite (node_eq next.0 target) (new_entry target next.0 1 ConnectionType.lan fallback now)
        (new_entry target next.0 2 ConnectionType.relay fallback now))

unfoldable pub discover_route :
    MultihopManager → NodeId → ℕ → MultihopManager × Result RouterError (Unit {0})
unfolding discovered insert_or_evict sort_nodes
discover_route m target now =
    ite (node_eq target m.local_id) (m, err RouterError.invalid_data)
      (elim m.dht [
        | none ↦ (m, err RouterError.send_failed)
        | some dht ↦ elim (discovered target (sort_nodes target (find_node dht target)) now) [
          | none ↦ (m, err (RouterError.no_route target))
          | some entry ↦ (insert_or_evict m entry, ok tt)
        ]
      ])

unfoldable pub add_direct_route : MultihopManager → NodeId → List ℕ → ℕ → MultihopManager
unfolding new_entry insert_or_evict
add_direct_route m target addr now =
    ite (node_eq target m.local_id) m
      (insert_or_evict m (new_entry target target 1 ConnectionType.lan ((target, addr) ∷ []) now))

unfoldable pub find_route : MultihopManager → NodeId → ℕ → Option MultiHopEntry
unfolding is_expired
find_route m target now = elim (Assoc.lookup node_eq target m.routes) [
  | none ↦ none
  | some entry ↦ if is_expired entry now then none else some entry
]

unfoldable pub next_hop : MultihopManager → NodeId → ℕ → Result RouterError NodeId
unfolding find_route
next_hop m target now = elim (find_route m target now) [
  | none ↦ err (RouterError.no_route target)
  | some entry ↦ ok entry.next_hop
]

unfoldable pub remove_route : MultihopManager → NodeId → MultihopManager × Option MultiHopEntry
remove_route m target = (
  record m { routes = Assoc.remove node_eq target m.routes },
  Assoc.lookup node_eq target m.routes,
)

unfoldable pub expires : MultihopManager → NodeId → ℕ → MultihopManager
expires m target at = record m {
  routes = Assoc.modify node_eq target (λ e. record e { expires_at = at }) m.routes;
}

unfoldable pub mark_invalid : MultihopManager → NodeId → ℕ → MultihopManager
unfolding expires
mark_invalid m target now = expires m target (now - second)

-- The first candidate that is neither the next hop nor this node.
unfoldable pub next_best : NodeId → NodeId → List Node → Option Node
next_best current local_id [] = none
next_best current local_id (n ∷ candidates) =
    ite (node_eq n.0 current) (next_best current local_id candidates)
      (ite (node_eq n.0 local_id) (next_best current local_id candidates) (some n))

unfoldable pub switched : MultiHopEntry → NodeId → NodeId → ℕ → MultiHopEntry
unfolding calculate_metric
switched old target hop now = record {
  target = target;
  next_hop = hop;
  hop_count = old.hop_count;
  metric = calculate_metric old.hop_count ConnectionType.relay;
  connection_type = ConnectionType.relay;
  last_active = now;
  expires_at = now + default_route_timeout_secs * second;
  candidates = old.candidates;
}

unfoldable pub find_alternative :
    MultihopManager → NodeId → ℕ → MultihopManager × Result RouterError (Unit {0})
unfolding next_best switched
find_alternative m target now = elim (Assoc.lookup node_eq target m.routes) [
  | none ↦ (m, err (RouterError.no_route target))
  | some old ↦ elim (next_best old.next_hop m.local_id old.candidates) [
    | none ↦ (m, err (RouterError.no_route target))
    | some n ↦ (
      record m { routes = Assoc.insert node_eq target (switched old target n.0 now) m.routes },
      ok tt,
    )
  ]
]

unfoldable pub stale_targets : Routes → ℕ → List NodeId
unfolding is_expired
stale_targets [] now = []
stale_targets ((t, e) ∷ routes) now =
    let rest = stale_targets routes now in if is_expired e now then t ∷ rest else rest

-- The stale routes one after the other, and how many were refreshed.
unfoldable pub refresh_each : MultihopManager → List NodeId → ℕ → MultihopManager × ℕ
unfolding discover_route expires
refresh_each m [] now = (m, 0)
refresh_each m (target ∷ targets) now =
    let found = discover_route m target now in
    elim found.1 [
      | ok u ↦ let rest = refresh_each found.0 targets now in (rest.0, suc rest.1)
      | err e ↦
          refresh_each (expires m target (now + default_route_timeout_secs * second)) targets now
    ]

unfoldable pub refresh_stale_routes : MultihopManager → ℕ → MultihopManager × ℕ
unfolding refresh_each stale_targets
refresh_stale_routes m now = refresh_each m (stale_targets m.routes now) now

unfoldable pub find_routes_by_next_hop : Routes → NodeId → List NodeId
find_routes_by_next_hop [] hop = []
find_routes_by_next_hop ((t, e) ∷ routes) hop =
    ite (node_eq e.next_hop hop) (t ∷ find_routes_by_next_hop routes hop)
      (find_routes_by_next_hop routes hop)

unfoldable pub retain_fresh : Routes → ℕ → Routes
unfolding is_expired
retain_fresh [] now = []
retain_fresh ((t, e) ∷ routes) now =
    let rest = retain_fresh routes now in if is_expired e now then rest else (t, e) ∷ rest

unfoldable pub cleanup_expired : MultihopManager → ℕ → MultihopManager × ℕ
unfolding retain_fresh
cleanup_expired m now =
    if ltb (now - m.last_cleanup) (cleanup_interval_secs * second) then (m, 0) else (
      record m { routes = retain_fresh m.routes now; last_cleanup = now },
      length m.routes - length (retain_fresh m.routes now),
    )
