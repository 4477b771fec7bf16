-- ===== src/Vpn/Multihop.antt =====
-- `MultihopManager` of crates/vpn/src/vpn/multihop.rs. A method takes the time of the clock, in
-- nanoseconds, of which at least a second has gone by; the relay manager, which nothing of it reads,
-- is left out, and so are the texts of the errors.
pub mod Manager
pub mod Capacity
pub mod Alternatives
use mathlib.Core.Option
use Prim.Native.Nat.{bit_xor}
use lan_link.Prelude.{
  ℕ, zero, suc, ◌+◌, ◌-◌, ◌*◌, List, [], ◌∷◌, length, take, drop, Bool, true, false, Option, none,
  some, ltb, leb, if◌then◌else◌, ite, ◌==◌,
}
use lan_link.Prelude.Assoc
use lan_link.Prelude.Result.{Result, ok, err}
use lan_link.Vpn.Identity.{NodeId, node_eq}
use lan_link.Vpn.Routing.{ConnectionType}
use lan_link.Vpn.Dht.Manager.{DhtManager, find_node}

abbrev pub second : ℕ
second = 1000000000

abbrev pub max_route_entries : ℕ
max_route_entries = 1000

abbrev pub default_route_timeout_secs : ℕ
default_route_timeout_secs = 300

abbrev pub metric_per_hop : ℕ
metric_per_hop = 100

abbrev pub metric_relay_penalty : ℕ
metric_relay_penalty = 50

abbrev pub metric_direct_penalty : ℕ
metric_direct_penalty = 10

abbrev pub cleanup_interval_secs : ℕ
cleanup_interval_secs = 60

abbrev pub k_candidates_max : ℕ
k_candidates_max = 10

abbrev pub Node : Type 0
Node = NodeId × List ℕ

pub record MultiHopEntry : Type 0 where
  pub target : NodeId
  pub next_hop : NodeId
  pub hop_count : ℕ
  pub metric : ℕ
  pub connection_type : ConnectionType
  pub last_active : ℕ
  pub expires_at : ℕ
  pub candidates : List Node

pub data RouterError : Type 0 where
  no_route : NodeId → RouterError
  send_failed invalid_data : RouterError

-- At most 255 hops: no overflow of a u32.
unfoldable pub calculate_metric : ℕ → ConnectionType → ℕ
calculate_metric hop_count ConnectionType.relay = hop_count * metric_per_hop + metric_relay_penalty
calculate_metric hop_count ConnectionType.lan = hop_count * metric_per_hop + metric_direct_penalty
calculate_metric hop_count ConnectionType.vpn = hop_count * metric_per_hop + metric_direct_penalty
calculate_metric hop_count ConnectionType.unknown = hop_count * metric_per_hop + 999

unfoldable pub new_entry : NodeId → NodeId → ℕ → ConnectionType → List Node → ℕ → MultiHopEntry
unfolding calculate_metric
new_entry target next_hop hop_count connection_type candidates now = record {
  target = target;
  next_hop = next_hop;
  hop_count = hop_count;
  metric = calculate_metric hop_count connection_type;
  connection_type = connection_type;
  last_active = now;
  expires_at = now + default_route_timeout_secs * second;
  candidates = candidates;
}

unfoldable pub is_expired : MultiHopEntry → ℕ → Bool
is_expired e now = leb e.expires_at now

unfoldable pub refresh : MultiHopEntry → ℕ → MultiHopEntry
refresh e now = record e {
  last_active = now;
  expires_at = now + default_route_timeout_secs * second;
}

abbrev pub Routes : Type 0
Routes = List (NodeId × MultiHopEntry)

pub record MultihopManager : Type 0 where
  pub local_id : NodeId
  pub routes : Routes
  pub dht : Option DhtManager
  pub max_entries : ℕ
  pub last_cleanup : ℕ

unfoldable pub new : NodeId → ℕ → MultihopManager
new local_id now = record {
  local_id = local_id;
  routes = [];
  dht = none;
  max_entries = max_route_entries;
  last_cleanup = now;
}

unfoldable pub set_dht : MultihopManager → DhtManager → MultihopManager
set_dht m dht = record m { dht = some dht }

-- The number that 16 bytes of the two ids make, after those that made `dist`.
unfoldable pub xor_from : ℕ → ℕ → NodeId → NodeId → ℕ
xor_from zero dist a b = dist
xor_from (suc n) dist [] b = dist
xor_from (suc n) dist (x ∷ a) [] = dist
xor_from (suc n) dist (x ∷ a) (y ∷ b) = xor_from n (dist * 256 + bit_xor x y) a b

unfoldable pub xor_distance_u128 : NodeId → NodeId → ℕ
unfolding xor_from
xor_distance_u128 a b = xor_from 16 0 a b

-- A stable sort.
unfoldable pub insert_sorted : NodeId → Node → List Node → List Node
unfolding xor_distance_u128
insert_sorted target n [] = n ∷ []
insert_sorted target n (m ∷ sorted) =
    let rest = insert_sorted target n sorted in
    if leb (xor_distance_u128 n.0 target) (xor_distance_u128 m.0 target)
    then n ∷ m ∷ sorted
    else m ∷ rest

unfoldable pub sort_nodes : NodeId → List Node → List Node
unfolding insert_sorted
sort_nodes target [] = []
sort_nodes target (n ∷ nodes) = insert_sorted target n (sort_nodes target nodes)

-- The nodes with another id.
unfoldable pub others : NodeId → List Node → List Node
others id [] = []
others id (n ∷ nodes) = ite (node_eq n.0 id) (others id nodes) (n ∷ others id nodes)

-- The least recently active of a route and those that follow; the first of those that are equal.
unfoldable pub oldest : NodeId → ℕ → Routes → NodeId
oldest target last_active [] = target
oldest target last_active ((t, e) ∷ routes) =
    if ltb e.last_active last_active
    then oldest t e.last_active routes
    else oldest target last_active routes

unfoldable pub evict_oldest : Routes → Routes
unfolding oldest
evict_oldest [] = []
evict_oldest ((t, e) ∷ routes) =
    Assoc.remove node_eq (oldest t e.last_active routes) ((t, e) ∷ routes)

unfoldable pub insert_or_evict : MultihopManager → MultiHopEntry → MultihopManager
unfolding evict_oldest
insert_or_evict m entry =
    let put : Routes → MultihopManager =
      λ routes. record m { routes = Assoc.insert node_eq entry.target entry routes } in
    elim (Assoc.lookup node_eq entry.target m.routes) [
      | some e ↦ put m.routes
      | none ↦
          if ltb (length m.routes) m.max_entries then put m.routes else put (evict_oldest m.routes)
    ]
