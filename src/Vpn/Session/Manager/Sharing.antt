-- ===== src/Vpn/Session/Manager/Sharing.antt =====
-- Which sessions a manager hands out again and which it drops (crates/vpn/src/vpn/session.rs).

use lan_link.Prelude.{
  ℕ, ◌≡◌, ◌≢◌, ◌⊎◌, refl, sym, ◌∙◌, List, [], ◌∷◌, All, Bool, false, not, Option, none, some, arith,
  inl, inr,
}
use lan_link.Prelude.Assoc
use lan_link.Prelude.Assoc.{
  lookup-insert_self, lookup-insert_ne, lookup-remove_self, lookup-remove_ne,
}
use lan_link.Prelude.Branches.{on_dec, on_if}
use lan_link.Vpn.Identity.{NodeId, node_eq}
use lan_link.Vpn.Session.{SessionState, Session, is_expired}
use lan_link.Vpn.Session
use lan_link.Vpn.Session.Manager.{
  Sessions, SessionManager, get_or_create, get, expired_ids, remove_all, cleanup_expired,
}

-- A session that is asked for and has not expired is handed out as it is, and nothing changes.
pub get_or_create-reuses :
    (m : SessionManager) (remote_id : NodeId) (now made stored : ℕ) (s : Session)
    → get m remote_id ≡ some s
    → is_expired s now ≡ false
    → get_or_create m remote_id now made stored ≡ (m, s)
unfolding get get_or_create
get_or_create-reuses m remote_id now made stored s e f = ground arith

-- The node has a session that has not expired.
unfoldable pub is_usable : Option Session → ℕ → Bool
is_usable none now = false
is_usable (some s) now = not (is_expired s now)

get_or_create-makes :
    (m : SessionManager) (remote_id : NodeId) (now made stored : ℕ)
    → is_usable (get m remote_id) now ≡ false
    → get_or_create m remote_id now made stored ≡ (
      record m {
        sessions =
            Assoc.insert node_eq remote_id
              (Session.with_timeout m.local_id remote_id m.default_timeout stored)
              m.sessions;
      },
      Session.with_timeout m.local_id remote_id m.default_timeout made,
    )
unfolding get get_or_create is_usable
get_or_create-makes m remote_id now made stored h = ground arith

-- If the node that is asked for has no session, or an expired one, a session in the first state is
-- handed out; the one that is stored for the node differs from it only in its times, and the sessions
-- of the other nodes are kept.
pub get_or_create-fresh :
    (m : SessionManager) (remote_id other : NodeId) (now made stored : ℕ)
    → is_usable (get m remote_id) now ≡ false
    → other ≢ remote_id
    → ((get_or_create m remote_id now made stored).1.state ≡ SessionState.init)
      × (get (get_or_create m remote_id now made stored).0 remote_id
          ≡ some (record (get_or_create m remote_id now made stored).1 {
            created_at = stored;
            last_active = stored;
          }))
      × (get (get_or_create m remote_id now made stored).0 other ≡ get m other)
unfolding get Session.with_timeout Session.new
get_or_create-fresh m remote_id other now made stored h ne =
    let kept = Session.with_timeout m.local_id remote_id m.default_timeout stored in
    rw (get_or_create-makes m remote_id now made stored h) (
      refl,
      lookup-insert_self node_eq remote_id kept m.sessions,
      lookup-insert_ne node_eq remote_id other kept m.sessions ne,
    )

lookup-remove_all :
    (ids : List NodeId) (q : NodeId) (sessions : Sessions)
    → All (λ id. q ≢ id) ids
    → Assoc.lookup node_eq q (remove_all ids sessions) ≡ Assoc.lookup node_eq q sessions
unfolding remove_all
lookup-remove_all [] q sessions h = refl
lookup-remove_all (id ∷ ids) q sessions h =
    lookup-remove_all ids q (Assoc.remove node_eq id sessions) h.1
    ∙ lookup-remove_ne node_eq id q sessions h.0

abbrev Has : NodeId → List NodeId → Type 0
Has q [] = ⊥
Has q (id ∷ ids) = (q ≡ id) ⊎ Has q ids

-- The entries outlive the removal of `ids`, or their node is among `ids`.
abbrev Covered : ℕ → List NodeId → Sessions → Type 0
Covered now ids = All (λ e. (is_expired e.1 now ≡ false) ⊎ Has e.0 ids)

Covered-remove :
    (now : ℕ) (id : NodeId) (ids : List NodeId) (sessions : Sessions)
    → Covered now (id ∷ ids) sessions
    → Covered now ids (Assoc.remove node_eq id sessions)
unfolding Assoc.remove
Covered-remove now id ids [] c = tt
Covered-remove now id ids ((j, s) ∷ sessions) c =
    let rest = Covered-remove now id ids sessions c.1 in
    on_dec (Covered now ids) (node_eq id j) (λ _. rest)
      (λ n. (
        elim c.0 [
          | inl alive ↦ inl alive
          | inr has ↦ elim has [ inl e ↦ absurd (n (sym e)) | inr there ↦ inr there ]
        ],
        rest,
      ))

Covered-remove_all :
    (now : ℕ) (ids : List NodeId) (sessions : Sessions)
    → Covered now ids sessions
    → All (λ e. is_expired e.1 now ≡ false) (remove_all ids sessions)
unfolding remove_all
Covered-remove_all now [] [] c = tt
Covered-remove_all now [] (e ∷ sessions) c =
    (elim c.0 [ inl alive ↦ alive | inr has ↦ absurd has ], Covered-remove_all now [] sessions c.1)
Covered-remove_all now (id ∷ ids) sessions c =
    Covered-remove_all now ids (Assoc.remove node_eq id sessions)
      (Covered-remove now id ids sessions c)

Covered-weaken :
    (now : ℕ) (id : NodeId) (ids : List NodeId) (sessions : Sessions)
    → Covered now ids sessions
    → Covered now (id ∷ ids) sessions
Covered-weaken now id ids [] c = tt
Covered-weaken now id ids (e ∷ sessions) c = (
  elim c.0 [ inl alive ↦ inl alive | inr has ↦ inr (inr has) ],
  Covered-weaken now id ids sessions c.1,
)

expired_ids-Covered :
    (now : ℕ) (sessions : Sessions) → Covered now (expired_ids now sessions) sessions
unfolding expired_ids
expired_ids-Covered now [] = tt
expired_ids-Covered now ((id, s) ∷ sessions) =
    let rest = expired_ids-Covered now sessions in
    on_if (λ ids. Covered now ids ((id, s) ∷ sessions)) (is_expired s now)
      (λ _. (inr (inl refl), Covered-weaken now id (expired_ids now sessions) sessions rest))
      (λ alive. (inl alive, rest))

-- After a cleanup every session that is left is alive, and a node that is not among those that the
-- cleanup reports has the session that it had.
pub cleanup_expired_lem :
    (m : SessionManager) (now : ℕ) (q : NodeId)
    → All (λ id. q ≢ id) (cleanup_expired m now).1
    → All (λ e. is_expired e.1 now ≡ false) (cleanup_expired m now).0.sessions
      × (get (cleanup_expired m now).0 q ≡ get m q)
unfolding cleanup_expired get
cleanup_expired_lem m now q h = (
  Covered-remove_all now (expired_ids now m.sessions) m.sessions
      (expired_ids-Covered now m.sessions),
  lookup-remove_all (expired_ids now m.sessions) q m.sessions h,
)
