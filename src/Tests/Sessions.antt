-- ===== src/Tests/Sessions.antt =====
-- Sessions and their manager on concrete inputs.

use lan_link.Prelude.{ℕ, ◌+◌, ◌≡◌, ◌≢◌, refl, replicate, List, [], ◌∷◌, arith, ℕ_discrete}
use lan_link.Prelude.Bytes.{both_eq, bytes_eq}
use lan_link.Prelude.Assoc.{lookup, insert, remove}
use lan_link.Vpn.Identity.{NodeId}
use lan_link.Vpn.Session.{
  SessionState, SessionError, Session, is_expired, is_valid_transition, transition,
  next_send_counter, verify_recv_counter,
}
use lan_link.Prelude.Words.{secs}
use lan_link.Vpn.Session
use lan_link.Vpn.Session.LifeCycle.{accepted, request_all}
use lan_link.Vpn.Session.Replay.{Increasing, kept, accepted_of, arriving, accepted_of-Increasing}
use lan_link.Vpn.Session.Manager.{
  SessionManager, get, get_or_create, expired_ids, remove_all, cleanup_expired,
}
use lan_link.Vpn.Session.Manager
use lan_link.Vpn.Session.Manager.Sharing.{is_usable}

program : Unit {0}
unfolding lookup insert remove both_eq bytes_eq Session.new Session.with_timeout Session.touch
    is_valid_transition transition next_send_counter verify_recv_counter accepted request_all kept
    accepted_of arriving Manager.new get get_or_create expired_ids remove_all cleanup_expired
    is_usable ℕ_discrete
program = tt

abbrev alice : NodeId
alice = replicate 32 1

abbrev bob : NodeId
bob = replicate 32 2

abbrev session : Session
session = Session.new alice bob 0

abbrev requests : List (SessionState × ℕ)
requests =
    (SessionState.handshake, 1)
    ∷ (SessionState.init, 2)
    ∷ (SessionState.established, 3)
    ∷ (SessionState.closed, 4)
    ∷ (SessionState.closing, 5)
    ∷ (SessionState.closed, 6)
    ∷ []

four_accepted : (request_all session requests).1 ≡ 4
unfolding program
four_accepted = refl

abbrev arrivals : List (ℕ × ℕ)
arrivals = (0, 1) ∷ (2, 2) ∷ (1, 3) ∷ (2, 4) ∷ (3, 5) ∷ []

replays_refused : accepted_of session arrivals ≡ 0 ∷ 2 ∷ 3 ∷ []
unfolding program
replays_refused = refl

accepted_of-Increasing_example : Increasing session.recv_counter (accepted_of session arrivals)
accepted_of-Increasing_example =
    accepted_of-Increasing session arrivals
      (omega arith, (omega arith, (omega arith, (omega arith, (omega arith, tt)))))

abbrev trips : List (ℕ × ℕ)
trips = (1, 2) ∷ (3, 4) ∷ []

-- A session with Bob that has expired by then, and one with Alice that has not.
abbrev late : ℕ
late = secs 2000

abbrev manager : SessionManager
manager = record {
  sessions = (bob, Session.new alice bob 0) ∷ (alice, Session.new alice alice (secs 1000)) ∷ [];
  local_id = alice;
  default_timeout = secs 1800;
}

abbrev asked : SessionManager × Session
asked = get_or_create manager bob late (late + 1) (late + 2)

alice≢bob : alice ≢ bob
alice≢bob e = cc
