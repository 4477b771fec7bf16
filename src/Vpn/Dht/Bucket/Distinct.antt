-- ===== src/Vpn/Dht/Bucket/Distinct.antt =====
-- What every use of a `KBucket` keeps (crates/vpn/src/vpn/dht.rs).
use mathlib.Core.Option
use lan_link.Prelude.{
  ℕ, suc, ◌≡◌, ◌≢◌, refl, ap, sym, subst, List, [], ◌∷◌, ◌++◌, length, All, Option, none, some,
}
use lan_link.Prelude.Branches.{on_dec}
use lan_link.Vpn.Identity.{NodeId, node_eq}
use lan_link.Vpn.Dht.Bucket.{BucketEntry, refresh_entry, take_out}

-- No entry is of the node.
abbrev pub Absent : NodeId → List BucketEntry → Type 0
Absent id = All (λ e. e.node_id ≢ id)

-- The entries are of different nodes.
abbrev pub IsDistinct : List BucketEntry → Type 0
IsDistinct [] = Unit
IsDistinct (e ∷ entries) = Absent e.node_id entries × IsDistinct entries

-- What `refresh_entry` finds: the same nodes in the same order, or no entry of the node.
abbrev pub Refreshed : NodeId → List BucketEntry → Option (List BucketEntry) → Type 0
Refreshed id entries none = Absent id entries
Refreshed id entries (some new_entries) =
    (length new_entries ≡ length entries)
    × ((q : NodeId) → Absent q entries → Absent q new_entries)
    × (IsDistinct entries → IsDistinct new_entries)

Refreshed-map :
    (id : NodeId) (e : BucketEntry) (entries : List BucketEntry) (o : Option (List BucketEntry))
    → e.node_id ≢ id
    → Refreshed id entries o
    → Refreshed id (e ∷ entries) (Option.map (λ r. e ∷ r) o)
Refreshed-map id e entries none n h = (n, h)
Refreshed-map id e entries (some r) n h =
    (ap suc h.0, (λ q a. (a.0, h.1 q a.1)), (λ d. (h.1 e.node_id d.0, h.2 d.1)))

pub refresh_entry-Refreshed :
    (id : NodeId) (addr : List ℕ) (now : ℕ) (entries : List BucketEntry)
    → Refreshed id entries (refresh_entry id addr now entries)
unfolding refresh_entry
refresh_entry-Refreshed id addr now [] = tt
refresh_entry-Refreshed id addr now (e ∷ entries) =
    on_dec (Refreshed id (e ∷ entries)) (node_eq e.node_id id) (λ _. (refl, (λ q a. a), (λ d. d)))
      (λ n.
        Refreshed-map id e entries (refresh_entry id addr now entries) n
          (refresh_entry-Refreshed id addr now entries))

-- What `take_out` finds: an entry of the node and the others, without it.
abbrev pub TakenOut : NodeId → List BucketEntry → Option (BucketEntry × List BucketEntry) → Type 0
TakenOut id entries none = Unit
TakenOut id entries (some r) =
    (suc (length r.1) ≡ length entries)
    × (r.0.node_id ≡ id)
    × ((q : NodeId) → Absent q entries → Absent q r.1)
    × (IsDistinct entries → Absent id r.1 × IsDistinct r.1)

TakenOut-map :
    (id : NodeId) (e : BucketEntry) (entries : List BucketEntry)
    (o : Option (BucketEntry × List BucketEntry))
    → e.node_id ≢ id
    → TakenOut id entries o
    → TakenOut id (e ∷ entries) (Option.map (λ r. (r.0, e ∷ r.1)) o)
TakenOut-map id e entries none n h = tt
TakenOut-map id e entries (some r) n h = (
  ap suc h.0,
  h.1,
  (λ q a. (a.0, h.2 q a.1)),
  (λ d. ((n, (h.3 d.1).0), (h.2 e.node_id d.0, (h.3 d.1).1))),
)

pub take_out-TakenOut :
    (id : NodeId) (entries : List BucketEntry) → TakenOut id entries (take_out id entries)
unfolding take_out
take_out-TakenOut id [] = tt
take_out-TakenOut id (e ∷ entries) =
    on_dec (TakenOut id (e ∷ entries)) (node_eq e.node_id id)
      (λ p. (refl, p, (λ q a. a.1), (λ d. (subst (λ k. Absent k entries) p d.0, d.1))))
      (λ n. TakenOut-map id e entries (take_out id entries) n (take_out-TakenOut id entries))

Absent-append :
    (id : NodeId) (entries : List BucketEntry) (e : BucketEntry)
    → Absent id entries
    → e.node_id ≢ id
    → Absent id (entries ++ (e ∷ []))
Absent-append id [] e a n = (n, tt)
Absent-append id (x ∷ entries) e a n = (a.0, Absent-append id entries e a.1 n)

pub IsDistinct-append :
    (entries : List BucketEntry) (e : BucketEntry)
    → IsDistinct entries
    → Absent e.node_id entries
    → IsDistinct (entries ++ (e ∷ []))
IsDistinct-append [] e d a = (tt, tt)
IsDistinct-append (x ∷ entries) e d a =
    (Absent-append x.node_id entries e d.0 (λ p. a.0 (sym p)), IsDistinct-append entries e d.1 a.1)
