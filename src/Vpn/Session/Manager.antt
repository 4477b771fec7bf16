-- ===== src/Vpn/Session/Manager.antt =====
-- `SessionManager` of crates/vpn/src/vpn/session.rs. One method reads the clock once for all the
-- sessions that it goes through.
pub mod Sharing
use mathlib.Core.Option
use mathlib.Core.List.{filter}
use lan_link.Prelude.{
  ℕ, zero, suc, ◌+◌, ◌-◌, ◌≤◌, ◌<◌, ◌≡◌, ◌≢◌, refl, ap, sym, ◌∙◌, List, [], ◌∷◌, length, All, Bool,
  true, false, not, ◌&&◌, Option, none, some, if◌then◌else◌, ltb, arith,
}
use lan_link.Prelude.Assoc
use lan_link.Prelude.Assoc.{
  lookup-insert_self, lookup-insert_ne, lookup-remove_self, lookup-remove_ne,
}
use lan_link.Prelude.Result.{Result, ok, err}
use lan_link.Vpn.Identity.{NodeId, node_eq}
use lan_link.Vpn.Session.{
  SessionState, SessionError, Session, is_expired, is_active, transition, default_session_timeout,
}
use lan_link.Vpn.Session

abbrev pub Sessions : Type 0
Sessions = List (NodeId × Session)

pub record SessionManager : Type 0 where
  pub sessions : Sessions
  pub local_id : NodeId
  pub default_timeout : ℕ

unfoldable pub new : NodeId → SessionManager
new local_id = record {
  sessions = [];
  local_id = local_id;
  default_timeout = default_session_timeout;
}

unfoldable pub with_timeout : NodeId → ℕ → SessionManager
with_timeout local_id timeout = record {
  sessions = [];
  local_id = local_id;
  default_timeout = timeout;
}

-- The clock is read when the old session is looked at, when the new one is made, and when the one
-- that is stored is made.
unfoldable pub get_or_create : SessionManager → NodeId → ℕ → ℕ → ℕ → SessionManager × Session
get_or_create m remote_id now made stored =
    let created = Session.with_timeout m.local_id remote_id m.default_timeout made in
    let kept = Session.with_timeout m.local_id remote_id m.default_timeout stored in
    let m' : SessionManager = record m {
      sessions = Assoc.insert node_eq remote_id kept m.sessions;
    } in
    elim (Assoc.lookup node_eq remote_id m.sessions) [
      | none ↦ (m', created)
      | some session ↦ if not (is_expired session now) then (m, session) else (m', created)
    ]

unfoldable pub get : SessionManager → NodeId → Option Session
get m remote_id = Assoc.lookup node_eq remote_id m.sessions

unfoldable pub update_state :
    SessionManager → NodeId → SessionState → ℕ → SessionManager × Result SessionError Unit
update_state m remote_id new_state now = elim (Assoc.lookup node_eq remote_id m.sessions) [
  | none ↦ (m, err SessionError.not_found)
  | some session ↦
      let (session', result) = transition session new_state now in
      (record m { sessions = Assoc.insert node_eq remote_id session' m.sessions }, result)
]

unfoldable pub set_keys :
    SessionManager → NodeId → List ℕ → List ℕ → ℕ → SessionManager × Result SessionError Unit
set_keys m remote_id send_key recv_key now = elim (Assoc.lookup node_eq remote_id m.sessions) [
  | none ↦ (m, err SessionError.not_found)
  | some session ↦
      let session' = Session.set_keys session send_key recv_key now in
      (record m { sessions = Assoc.insert node_eq remote_id session' m.sessions }, ok tt)
]

unfoldable pub remove : SessionManager → NodeId → SessionManager × Option Session
remove m remote_id = (
  record m { sessions = Assoc.remove node_eq remote_id m.sessions },
  Assoc.lookup node_eq remote_id m.sessions,
)

unfoldable pub secure_remove : SessionManager → NodeId → SessionManager
secure_remove m remote_id = record m { sessions = Assoc.remove node_eq remote_id m.sessions }

unfoldable pub expired_ids : ℕ → Sessions → List NodeId
expired_ids now [] = []
expired_ids now ((id, session) ∷ sessions) =
    if is_expired session now then id ∷ expired_ids now sessions else expired_ids now sessions

unfoldable pub remove_all : List NodeId → Sessions → Sessions
remove_all [] sessions = sessions
remove_all (id ∷ ids) sessions = remove_all ids (Assoc.remove node_eq id sessions)

unfoldable pub cleanup_expired : SessionManager → ℕ → SessionManager × List NodeId
cleanup_expired m now =
    let expired = expired_ids now m.sessions in
    (record m { sessions = remove_all expired m.sessions }, expired)

unfoldable pub active_of : ℕ → Sessions → List Session
active_of now [] = []
active_of now ((id, session) ∷ sessions) =
    if is_active session now then session ∷ active_of now sessions else active_of now sessions

unfoldable pub active_sessions : SessionManager → ℕ → List Session
active_sessions m now = active_of now m.sessions

unfoldable pub session_count : SessionManager → ℕ
session_count m = length m.sessions

unfoldable pub has_active_session : SessionManager → NodeId → ℕ → Bool
has_active_session m remote_id now =
    Option.get_or (Option.map (λ s. is_active s now) (Assoc.lookup node_eq remote_id m.sessions))
      false

unfoldable pub touch : SessionManager → NodeId → ℕ → SessionManager × Result SessionError Unit
touch m remote_id now = elim (Assoc.lookup node_eq remote_id m.sessions) [
  | none ↦ (m, err SessionError.not_found)
  | some session ↦ (
    record m { sessions = Assoc.insert node_eq remote_id (Session.touch session now) m.sessions },
    ok tt,
  )
]
