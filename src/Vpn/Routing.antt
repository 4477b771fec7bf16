-- ===== src/Vpn/Routing.antt =====
-- `RouteTable` of crates/vpn/src/router.rs.
pub mod Lookup
pub mod Best
use mathlib.Core.Option
use lan_link.Prelude.{
  ℕ, List, [], ◌∷◌, length, Bool, Option, none, some, ltb, ◌==◌, if◌then◌else◌, ite,
}
use lan_link.Prelude.Assoc
use lan_link.Vpn.Identity.{NodeId, node_eq}

pub data ConnectionType : Type 0 where
  lan vpn relay unknown : ConnectionType

pub record RouteEntry : Type 0 where
  pub target : NodeId
  pub next_hop : NodeId
  pub connection_type : ConnectionType
  pub metric : ℕ
  pub last_active : ℕ

abbrev pub RouteTable : Type 0
RouteTable = List (NodeId × RouteEntry)

unfoldable pub new : RouteTable
new = []

unfoldable pub upsert : RouteTable → RouteEntry → RouteTable
upsert t entry = Assoc.insert node_eq entry.target entry t

unfoldable pub remove : RouteTable → NodeId → RouteTable × Option RouteEntry
remove t target = (Assoc.remove node_eq target t, Assoc.lookup node_eq target t)

unfoldable pub lookup : RouteTable → NodeId → Option RouteEntry
lookup t target = Assoc.lookup node_eq target t

unfoldable pub entries : RouteTable → List RouteEntry
entries [] = []
entries ((_, e) ∷ t) = e ∷ entries t

unfoldable pub len : RouteTable → ℕ
len t = length t

unfoldable pub is_empty : RouteTable → Bool
is_empty t = length t == 0

unfoldable pub clear : RouteTable → RouteTable
clear t = []

-- `filter(|e| &e.target == target)` over the values.
unfoldable pub candidates : NodeId → RouteTable → List RouteEntry
candidates target [] = []
candidates target ((_, e) ∷ t) =
    ite (node_eq e.target target) (e ∷ candidates target t) (candidates target t)

-- `min_by_key(|e| e.metric)`: the first of the least.
unfoldable pub min_of : List RouteEntry → Option RouteEntry
min_of [] = none
min_of (e ∷ others) = elim (min_of others) [
  | none ↦ some e
  | some f ↦ if ltb f.metric e.metric then some f else some e
]

unfoldable pub best_route : RouteTable → NodeId → Option RouteEntry
best_route t target = min_of (candidates target t)
