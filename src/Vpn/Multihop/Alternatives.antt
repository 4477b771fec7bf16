-- ===== src/Vpn/Multihop/Alternatives.antt =====
-- The alternatives of a route (crates/vpn/src/vpn/multihop.rs).

use lan_link.Prelude.{
  ℕ, ◌≡◌, ◌≢◌, ◌⊎◌, inl, inr, refl, ap, sym, subst, ◌∙◌, List, [], ◌∷◌, some, if_pos, if_neg,
}
use lan_link.Prelude.Assoc
use lan_link.Prelude.Assoc.{lookup-insert_self}
use lan_link.Prelude.Result.{ok, on_some}
use lan_link.Vpn.Identity.{NodeId, node_eq}
use lan_link.Vpn.Multihop.{Node, MultiHopEntry, MultihopManager}
use lan_link.Vpn.Multihop.Manager.{next_best, switched, find_alternative}

-- Calls of `find_alternative` for one target, each at its time.
unfoldable pub find_alternatives : MultihopManager → NodeId → List ℕ → MultihopManager
find_alternatives m target [] = m
find_alternatives m target (now ∷ times) =
    find_alternatives (find_alternative m target now).0 target times

module _ (target : NodeId) (a b : Node) (rest : List Node) where
  -- The route stands in the table, goes over one of the two nodes, and has them first.
  abbrev pub Alternates : MultihopManager → Type 0
  Alternates m =
      (e : MultiHopEntry) × (Assoc.lookup node_eq target m.routes ≡ some e)
      × (e.candidates ≡ a ∷ b ∷ rest)
      × (((e.next_hop ≡ a.0) ⊎ (e.next_hop ≡ b.0)))

  next_best_lem :
      (current local_id : NodeId)
      → a.0 ≢ b.0
      → a.0 ≢ local_id
      → b.0 ≢ local_id
      → (n : Node) × (next_best current local_id (a ∷ b ∷ rest) ≡ some n)
        × ((n.0 ≡ a.0) ⊎ (n.0 ≡ b.0))
  unfolding next_best
  next_best_lem current local_id ab al bl = elim (node_eq a.0 current) [
    | yes p ↦ (
      b,
      if_pos (node_eq a.0 current) p _ _
          ∙ if_neg (node_eq b.0 current) (λ q. ab (p ∙ sym q)) _ _
          ∙ if_neg (node_eq b.0 local_id) bl _ _,
      inr refl,
    )
    | no n ↦
        (a, if_neg (node_eq a.0 current) n _ _ ∙ if_neg (node_eq a.0 local_id) al _ _, inl refl)
  ]

  alternative_lem :
      (m : MultihopManager) (e : MultiHopEntry) (n : Node) (now : ℕ)
      → Assoc.lookup node_eq target m.routes ≡ some e
      → next_best e.next_hop m.local_id e.candidates ≡ some n
      → find_alternative m target now ≡ (
        record m { routes = Assoc.insert node_eq target (switched e target n.0 now) m.routes },
        ok tt,
      )
  unfolding find_alternative
  alternative_lem m e n now h found =
      on_some (Assoc.lookup node_eq target m.routes) e _ _ h
      ∙ on_some (next_best e.next_hop m.local_id e.candidates) n _ _ found

  step-Alternates :
      (m : MultihopManager) (e : MultiHopEntry) (now : ℕ)
      → a.0 ≢ b.0
      → a.0 ≢ m.local_id
      → b.0 ≢ m.local_id
      → Assoc.lookup node_eq target m.routes ≡ some e
      → e.candidates ≡ a ∷ b ∷ rest
      → Alternates (find_alternative m target now).0
        × ((find_alternative m target now).0.local_id ≡ m.local_id)
  unfolding switched
  step-Alternates m e now ab al bl h c =
      let n = next_best_lem e.next_hop m.local_id ab al bl in
      let found : next_best e.next_hop m.local_id e.candidates ≡ some n.0 =
        ap (next_best e.next_hop m.local_id) c ∙ n.1 in
      subst (λ r. Alternates r.0 × (r.0.local_id ≡ m.local_id))
        (sym (alternative_lem m e n.0 now h found))
        (
          (
            switched e target n.0.0 now,
            lookup-insert_self node_eq target (switched e target n.0.0 now) m.routes,
            c,
            n.2,
          ),
          refl,
        )

  -- Whatever number of times another way is asked for, a route whose first two candidates are two
  -- other nodes goes over one of these two, so that no third candidate is ever tried.
  pub find_alternatives-first_two :
      (m : MultihopManager) (e : MultiHopEntry) (now : ℕ) (times : List ℕ)
      → a.0 ≢ b.0
      → a.0 ≢ m.local_id
      → b.0 ≢ m.local_id
      → Assoc.lookup node_eq target m.routes ≡ some e
      → e.candidates ≡ a ∷ b ∷ rest
      → Alternates (find_alternatives m target (now ∷ times))
  unfolding find_alternatives
  find_alternatives-first_two m e now [] ab al bl h c = (step-Alternates m e now ab al bl h c).0
  find_alternatives-first_two m e now (later ∷ times) ab al bl h c =
      let s = step-Alternates m e now ab al bl h c in
      find_alternatives-first_two (find_alternative m target now).0 s.0.0 later times ab
        (λ q. al (q ∙ s.1)) (λ q. bl (q ∙ s.1)) s.0.1 s.0.2
