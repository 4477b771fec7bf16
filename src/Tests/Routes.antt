-- ===== src/Tests/Routes.antt =====
-- A route table on concrete inputs.

use lan_link.Prelude.{ℕ, ◌≡◌, refl, replicate, List, [], ◌∷◌, some, ℕ_discrete}
use lan_link.Prelude.Bytes.{both_eq, bytes_eq}
use lan_link.Prelude.Assoc
use lan_link.Vpn.Identity.{NodeId}
use lan_link.Vpn.Routing.{
  ConnectionType, RouteEntry, RouteTable, new, upsert, remove, lookup, candidates, min_of,
  best_route,
}
use lan_link.Vpn.Routing.Lookup.{Call, upserts, removes, step, run}

program : Unit {0}
unfolding both_eq bytes_eq Assoc.lookup Assoc.insert Assoc.remove new upsert remove lookup
    candidates min_of best_route step run ℕ_discrete
program = tt

abbrev a : NodeId
a = replicate 32 1

abbrev b : NodeId
b = replicate 32 2

abbrev entry : NodeId → ℕ → RouteEntry
entry target metric = record {
  target = target;
  next_hop = b;
  connection_type = ConnectionType.relay;
  metric = metric;
  last_active = 0;
}

-- The later route to `a` replaces the earlier one, although it is worse.
abbrev calls : List Call
calls = upserts (entry a 1) ∷ upserts (entry b 2) ∷ upserts (entry a 9) ∷ removes b ∷ []

replaced : best_route (run new calls) a ≡ some (entry a 9)
unfolding program
replaced = refl

-- Two routes to `a`, which no calls make, of which the second is better.
abbrev doubled : RouteTable
doubled = (a, entry a 7) ∷ (b, entry a 3) ∷ (b, entry b 1) ∷ []

best_of_two : best_route doubled a ≡ some (entry a 3)
unfolding program
best_of_two = refl
