-- ===== src/Vpn/Session.antt =====
-- `Session` of crates/vpn/src/vpn/session.rs. A method that reads the clock takes the time, in
-- nanoseconds; the texts of the errors are left out. Sums of u64 wrap, as in a release build.
pub mod LifeCycle
pub mod Replay
pub mod Manager
use mathlib.Core.Option
use lan_link.Prelude.{
  ℕ, ◌+◌, ◌-◌, ◌*◌, ◌%◌, List, [], ◌∷◌, Bool, true, false, not, ◌&&◌, Option, none, some, ltb,
  if◌then◌else◌, take,
}
use lan_link.Prelude.Words.{secs, u64_mod}
use lan_link.Prelude.Result.{Result, ok, err}
use lan_link.Vpn.Identity.{NodeId}

abbrev pub default_session_timeout : ℕ
default_session_timeout = secs 1800

abbrev pub default_key_rotation : ℕ
default_key_rotation = secs 86400

pub data SessionError : Type 0 where
  not_found invalid_state expired creation_failed : SessionError

pub data SessionState : Type 0 where
  init handshake established closing closed : SessionState

pub record SessionKeys : Type 0 where
  pub send_key : List ℕ
  pub recv_key : List ℕ
  pub created_at : ℕ

pub record Session : Type 0 where
  -- The two parts of the id, which are the first four bytes of the nodes.
  pub id : List ℕ × List ℕ
  pub local_id : NodeId
  pub remote_id : NodeId
  pub state : SessionState
  pub keys : Option SessionKeys
  pub created_at : ℕ
  pub last_active : ℕ
  pub timeout : ℕ
  pub send_counter : ℕ
  pub recv_counter : ℕ

unfoldable pub new : NodeId → NodeId → ℕ → Session
new local_id remote_id now = record {
  id = (take 4 local_id, take 4 remote_id);
  local_id = local_id;
  remote_id = remote_id;
  state = SessionState.init;
  keys = none;
  created_at = now;
  last_active = now;
  timeout = default_session_timeout;
  send_counter = 0;
  recv_counter = 0;
}

unfoldable pub with_timeout : NodeId → NodeId → ℕ → ℕ → Session
with_timeout local_id remote_id timeout now = record (new local_id remote_id now) {
  timeout = timeout;
}

abbrev pub is_expired : Session → ℕ → Bool
is_expired s now = ltb s.timeout (now - s.last_active)

abbrev pub is_established : SessionState → Bool
is_established SessionState.established = true
is_established _ = false

unfoldable pub is_active : Session → ℕ → Bool
is_active s now = is_established s.state && not (is_expired s now)

unfoldable pub touch : Session → ℕ → Session
touch s now = record s { last_active = now }

-- `valid_transitions.contains(&new_state)`.
unfoldable pub is_valid_transition : SessionState → SessionState → Bool
is_valid_transition SessionState.init SessionState.handshake = true
is_valid_transition SessionState.init SessionState.closed = true
is_valid_transition SessionState.handshake SessionState.established = true
is_valid_transition SessionState.handshake SessionState.closed = true
is_valid_transition SessionState.established SessionState.closing = true
is_valid_transition SessionState.closing SessionState.closed = true
is_valid_transition _ _ = false

unfoldable pub transition : Session → SessionState → ℕ → Session × Result SessionError Unit
transition s new_state now =
    if is_valid_transition s.state new_state
    then (touch (record s { state = new_state }) now, ok tt)
    else (s, err SessionError.invalid_state)

unfoldable pub set_keys : Session → List ℕ → List ℕ → ℕ → Session
set_keys s send_key recv_key now =
    let keys : SessionKeys = record {
      send_key = send_key;
      recv_key = recv_key;
      created_at = now;
    } in
    touch (record s { keys = some keys }) now

unfoldable pub needs_key_rotation : Session → ℕ → Bool
needs_key_rotation s now =
    Option.get_or
      (Option.map (λ k. ltb default_key_rotation (now - SessionKeys.created_at k)) s.keys) false

unfoldable pub secure_close : Session → Session
secure_close s = record s { keys = none; state = SessionState.closed }

unfoldable pub next_send_counter : Session → ℕ → Session × ℕ
next_send_counter s now =
    (touch (record s { send_counter = (s.send_counter + 1) % u64_mod }) now, s.send_counter)

unfoldable pub verify_recv_counter : Session → ℕ → ℕ → Session × Result SessionError Unit
verify_recv_counter s counter now =
    if ltb counter s.recv_counter
    then (s, err SessionError.invalid_state)
    else (touch (record s { recv_counter = (counter + 1) % u64_mod }) now, ok tt)
