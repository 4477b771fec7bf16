-- ===== src/Vpn/Routing/Best.antt =====
-- What `best_route` finds (crates/vpn/src/router.rs).

use lan_link.Prelude.{◌<◌, ◌≤◌, ◌⊎◌, ◌++◌, Option, none, ◌≡◌, ◌≢◌, ◌∷◌, All, some}
use lan_link.Vpn.Identity.{NodeId}
use lan_link.Vpn.Routing.{RouteEntry, RouteTable}

-- What `best_route` returns of a table, in the order of the map: the first of the least.
abbrev pub IsBest : NodeId → RouteTable → Option RouteEntry → Type 0
IsBest target t best =
    ((best ≡ none) × All (λ r. RouteEntry.target r.1 ≢ target) t)
    ⊎ ((before : RouteTable) × (k : NodeId) × (e : RouteEntry) × (after : RouteTable) × (t
          ≡ before ++ ((k, e) ∷ after))
        × (best ≡ some e)
        × (e.target ≡ target)
        × All (λ r. RouteEntry.target r.1 ≡ target → e.metric < RouteEntry.metric r.1) before
        × All (λ r. RouteEntry.target r.1 ≡ target → e.metric ≤ RouteEntry.metric r.1) after)
