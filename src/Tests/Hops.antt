-- ===== src/Tests/Hops.antt =====
-- Small tables of routes over several hops.

use lan_link.Prelude.{ℕ, ◌+◌, ◌≡◌, ◌⊎◌, refl, List, [], ◌∷◌, none, some, arith, ℕ_discrete}
use lan_link.Prelude.Bytes.{both_eq, bytes_eq}
use lan_link.Prelude.Assoc
use lan_link.Vpn.Identity.{NodeId, node_eq}
use lan_link.Vpn.Routing.{ConnectionType}
use lan_link.Vpn.Multihop.{
  Node, MultiHopEntry, MultihopManager, insert_or_evict, evict_oldest, oldest,
}
use lan_link.Vpn.Multihop.Capacity.{IsWithin, Call, calls, calls-IsWithin}
use lan_link.Vpn.Multihop.Alternatives.{find_alternatives, find_alternatives-first_two}

abbrev id : ℕ → NodeId
id n = n ∷ []

abbrev node : ℕ → Node
node n = (id n, [])

abbrev route : ℕ → ℕ → MultiHopEntry
route n at = record {
  target = id n;
  next_hop = id 9;
  hop_count = 2;
  metric = 250;
  connection_type = ConnectionType.relay;
  last_active = at;
  expires_at = at + 300;
  candidates = node 1 ∷ node 2 ∷ node 3 ∷ [];
}

abbrev table : MultihopManager
table = record {
  local_id = id 0;
  routes = (id 5, route 5 20) ∷ (id 6, route 6 10) ∷ [];
  dht = none;
  max_entries = 2;
  last_cleanup = 0;
}

evicted :
    insert_or_evict table (route 7 30)
    ≡ record table { routes = (id 5, route 5 20) ∷ (id 7, route 7 30) ∷ [] }
unfolding insert_or_evict evict_oldest oldest Assoc.lookup Assoc.insert Assoc.remove bytes_eq
    both_eq ℕ_discrete
evicted = refl

abbrev changes : List (Call × ℕ)
changes =
    (Call.inserts (route 7 30), 30)
    ∷ (Call.adds (id 8) [], 31)
    ∷ (Call.alternates (id 7), 32)
    ∷ (Call.refreshes, 33)
    ∷ (Call.cleans, 34)
    ∷ []

calls-IsWithin_example : IsWithin (calls table changes)
calls-IsWithin_example = calls-IsWithin changes table (omega arith, omega arith)

find_alternatives-first_two_example :
    (e : MultiHopEntry) × (Assoc.lookup node_eq
        (id 5)
        (find_alternatives table (id 5) (40 ∷ 41 ∷ 42 ∷ [])).routes
      ≡ some e)
    × (e.candidates ≡ node 1 ∷ node 2 ∷ node 3 ∷ [])
    × ((e.next_hop ≡ id 1) ⊎ (e.next_hop ≡ id 2))
unfolding Assoc.lookup bytes_eq both_eq ℕ_discrete
find_alternatives-first_two_example =
    find_alternatives-first_two (id 5) (node 1) (node 2) (node 3 ∷ []) table (route 5 20) 40
      (41 ∷ 42 ∷ []) (λ e. cc) (λ e. cc) (λ e. cc) refl refl
