-- ===== src/Vpn/Routing/Lookup.antt =====
-- Tables that calls make (crates/vpn/src/router.rs).

use lan_link.Prelude.{
  ◌≡◌, ◌≢◌, refl, sym, ◌∙◌, subst, List, [], ◌∷◌, All, some, ite, if_pos, if_neg,
}
use lan_link.Prelude.Assoc
use lan_link.Prelude.Branches.{on_dec}
use lan_link.Vpn.Identity.{NodeId, node_eq}
use lan_link.Vpn.Routing.{
  RouteEntry, RouteTable, new, upsert, remove, lookup, clear, candidates, min_of, best_route,
}

pub data Call : Type 0 where
  upserts : RouteEntry → Call
  removes : NodeId → Call
  clears : Call

unfoldable pub step : RouteTable → Call → RouteTable
step t (upserts entry) = upsert t entry
step t (removes target) = (remove t target).0
step t clears = clear t

unfoldable pub run : RouteTable → List Call → RouteTable
run t [] = t
run t (call ∷ calls) = run (step t call) calls

-- Each entry stands under its own target.
abbrev Keyed : RouteTable → Type 0
Keyed = All (λ e. RouteEntry.target e.1 ≡ e.0)

abbrev Absent : NodeId → RouteTable → Type 0
Absent q = All (λ e. e.0 ≢ q)

abbrev Distinct : RouteTable → Type 0
Distinct [] = Unit
Distinct ((k, _) ∷ t) = Absent k t × Distinct t

Keyed-insert :
    (entry : RouteEntry) (t : RouteTable)
    → Keyed t
    → Keyed (Assoc.insert node_eq entry.target entry t)
unfolding Assoc.insert
Keyed-insert entry [] h = (refl, tt)
Keyed-insert entry ((j, e) ∷ t) h =
    on_dec Keyed (node_eq entry.target j) (λ _. (refl, h.1)) (λ _. (h.0, Keyed-insert entry t h.1))

Keyed-remove : (k : NodeId) (t : RouteTable) → Keyed t → Keyed (Assoc.remove node_eq k t)
unfolding Assoc.remove
Keyed-remove k [] h = tt
Keyed-remove k ((j, e) ∷ t) h =
    on_dec Keyed (node_eq k j) (λ _. Keyed-remove k t h.1) (λ _. (h.0, Keyed-remove k t h.1))

Absent-insert :
    (q k : NodeId) (entry : RouteEntry) (t : RouteTable)
    → k ≢ q
    → Absent q t
    → Absent q (Assoc.insert node_eq k entry t)
unfolding Assoc.insert
Absent-insert q k entry [] n h = (n, tt)
Absent-insert q k entry ((j, e) ∷ t) n h =
    on_dec (Absent q) (node_eq k j) (λ _. (n, h.1)) (λ _. (h.0, Absent-insert q k entry t n h.1))

Absent-remove : (q k : NodeId) (t : RouteTable) → Absent q t → Absent q (Assoc.remove node_eq k t)
unfolding Assoc.remove
Absent-remove q k [] h = tt
Absent-remove q k ((j, e) ∷ t) h =
    on_dec (Absent q) (node_eq k j) (λ _. Absent-remove q k t h.1)
      (λ _. (h.0, Absent-remove q k t h.1))

Distinct-insert :
    (k : NodeId) (entry : RouteEntry) (t : RouteTable)
    → Distinct t
    → Distinct (Assoc.insert node_eq k entry t)
unfolding Assoc.insert
Distinct-insert k entry [] h = (tt, tt)
Distinct-insert k entry ((j, e) ∷ t) h =
    on_dec Distinct (node_eq k j) (λ p. (subst (λ x. Absent x t) (sym p) h.0, h.1))
      (λ n. (Absent-insert j k entry t n h.0, Distinct-insert k entry t h.1))

Distinct-remove : (k : NodeId) (t : RouteTable) → Distinct t → Distinct (Assoc.remove node_eq k t)
unfolding Assoc.remove
Distinct-remove k [] h = tt
Distinct-remove k ((j, e) ∷ t) h =
    on_dec Distinct (node_eq k j) (λ _. Distinct-remove k t h.1)
      (λ _. (Absent-remove j k t h.0, Distinct-remove k t h.1))

abbrev IsTable : RouteTable → Type 0
IsTable t = Keyed t × Distinct t

step-IsTable : (t : RouteTable) (call : Call) → IsTable t → IsTable (step t call)
unfolding step upsert remove clear
step-IsTable t (upserts entry) h =
    (Keyed-insert entry t h.0, Distinct-insert entry.target entry t h.1)
step-IsTable t (removes target) h = (Keyed-remove target t h.0, Distinct-remove target t h.1)
step-IsTable t clears h = (tt, tt)

run-IsTable : (t : RouteTable) (calls : List Call) → IsTable t → IsTable (run t calls)
unfolding run
run-IsTable t [] h = h
run-IsTable t (call ∷ calls) h = run-IsTable (step t call) calls (step-IsTable t call h)

candidates-Absent : (q : NodeId) (t : RouteTable) → Keyed t → Absent q t → candidates q t ≡ []
unfolding candidates
candidates-Absent q [] k a = refl
candidates-Absent q ((j, e) ∷ t) k a =
    on_dec (λ c. c ≡ []) (node_eq e.target q) (λ p. absurd (a.0 (sym k.0 ∙ p)))
      (λ _. candidates-Absent q t k.1 a.1)

min_of-candidates :
    (q : NodeId) (t : RouteTable) → IsTable t → min_of (candidates q t) ≡ Assoc.lookup node_eq q t
unfolding candidates Assoc.lookup min_of
min_of-candidates q [] h = refl
min_of-candidates q ((j, e) ∷ t) h =
    on_dec (λ c. min_of c ≡ ite (node_eq q j) (some e) (Assoc.lookup node_eq q t))
      (node_eq e.target q)
      (λ p.
        rw (candidates-Absent q t h.0.1 (subst (λ x. Absent x t) (sym h.0.0 ∙ p) h.1.0))
          (sym (if_pos (node_eq q j) (sym p ∙ h.0.0) (some e) (Assoc.lookup node_eq q t))))
      (λ n.
        min_of-candidates q t (h.0.1, h.1.1)
        ∙ sym (if_neg (node_eq q j) (λ p. n (h.0.0 ∙ sym p)) (some e) (Assoc.lookup node_eq q t)))

-- In a table that any calls have made, the best route to a target is the one that `lookup` finds.
pub best_route-lookup :
    (calls : List Call) (target : NodeId)
    → best_route (run new calls) target ≡ lookup (run new calls) target
unfolding best_route lookup new
best_route-lookup calls target =
    min_of-candidates target (run new calls) (run-IsTable new calls (tt, tt))
