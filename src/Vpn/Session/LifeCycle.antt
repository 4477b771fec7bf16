-- ===== src/Vpn/Session/LifeCycle.antt =====
-- The states that a session goes through (crates/vpn/src/vpn/session.rs).
use lan_link.Prelude.{
  ℕ, suc, ◌+◌, ◌≤◌, ◌≡◌, refl, ◌∙◌, List, [], ◌∷◌, true, false, arith, ◌⊎◌, inl, inr, sym,
  Bool-cases,
}
use mathlib.Core.Bool.{true≢false}
use lan_link.Prelude.Result.{Result, ok, err}
use lan_link.Vpn.Session.{
  SessionState, SessionError, Session, touch, is_valid_transition, transition,
}

-- The steps that the protocol allows.
pub data Step : SessionState → SessionState → Type 0 where
  begin : Step SessionState.init SessionState.handshake
  complete : Step SessionState.handshake SessionState.established
  close : Step SessionState.established SessionState.closing
  finish : Step SessionState.closing SessionState.closed
  cancel : Step SessionState.init SessionState.closed
  fail : Step SessionState.handshake SessionState.closed

-- How far a state is on its way.
abbrev pub rank : SessionState → ℕ
rank SessionState.init = 0
rank SessionState.handshake = 1
rank SessionState.established = 2
rank SessionState.closing = 3
rank SessionState.closed = 4

-- One for a result that is no error.
unfoldable pub accepted : Result SessionError Unit → ℕ
accepted (ok _) = 1
accepted (err _) = 0

-- The states that are requested, one after the other, at the given times: the session after them,
-- and how many requests were accepted.
unfoldable pub request_all : Session → List (SessionState × ℕ) → Session × ℕ
request_all s [] = (s, 0)
request_all s ((new_state, now) ∷ requests) =
    let (s', result) = transition s new_state now in
    let (last, n) = request_all s' requests in (last, accepted result + n)

is_valid_transition-Step : (a b : SessionState) → is_valid_transition a b ≡ true → Step a b
unfolding is_valid_transition
is_valid_transition-Step SessionState.init SessionState.init h = absurd (cc)
is_valid_transition-Step SessionState.init SessionState.handshake h = begin
is_valid_transition-Step SessionState.init SessionState.established h = absurd (cc)
is_valid_transition-Step SessionState.init SessionState.closing h = absurd (cc)
is_valid_transition-Step SessionState.init SessionState.closed h = cancel
is_valid_transition-Step SessionState.handshake SessionState.init h = absurd (cc)
is_valid_transition-Step SessionState.handshake SessionState.handshake h = absurd (cc)
is_valid_transition-Step SessionState.handshake SessionState.established h = complete
is_valid_transition-Step SessionState.handshake SessionState.closing h = absurd (cc)
is_valid_transition-Step SessionState.handshake SessionState.closed h = fail
is_valid_transition-Step SessionState.established SessionState.init h = absurd (cc)
is_valid_transition-Step SessionState.established SessionState.handshake h = absurd (cc)
is_valid_transition-Step SessionState.established SessionState.established h = absurd (cc)
is_valid_transition-Step SessionState.established SessionState.closing h = close
is_valid_transition-Step SessionState.established SessionState.closed h = absurd (cc)
is_valid_transition-Step SessionState.closing SessionState.init h = absurd (cc)
is_valid_transition-Step SessionState.closing SessionState.handshake h = absurd (cc)
is_valid_transition-Step SessionState.closing SessionState.established h = absurd (cc)
is_valid_transition-Step SessionState.closing SessionState.closing h = absurd (cc)
is_valid_transition-Step SessionState.closing SessionState.closed h = finish
is_valid_transition-Step SessionState.closed SessionState.init h = absurd (cc)
is_valid_transition-Step SessionState.closed SessionState.handshake h = absurd (cc)
is_valid_transition-Step SessionState.closed SessionState.established h = absurd (cc)
is_valid_transition-Step SessionState.closed SessionState.closing h = absurd (cc)
is_valid_transition-Step SessionState.closed SessionState.closed h = absurd (cc)

Step-is_valid : {a b : SessionState} → Step a b → is_valid_transition a b ≡ true
unfolding is_valid_transition
Step-is_valid begin = refl
Step-is_valid complete = refl
Step-is_valid close = refl
Step-is_valid finish = refl
Step-is_valid cancel = refl
Step-is_valid fail = refl

rank_le : (a : SessionState) → rank a ≤ 4
rank_le SessionState.init = omega arith
rank_le SessionState.handshake = omega arith
rank_le SessionState.established = omega arith
rank_le SessionState.closing = omega arith
rank_le SessionState.closed = omega arith

rank-Step : {a b : SessionState} → Step a b → suc (rank a) ≤ rank b
rank-Step begin = omega arith
rank-Step complete = omega arith
rank-Step close = omega arith
rank-Step finish = omega arith
rank-Step cancel = omega arith
rank-Step fail = omega arith

transition-valid :
    (s : Session) (new_state : SessionState) (now : ℕ)
    → is_valid_transition s.state new_state ≡ true
    → transition s new_state now ≡ (record s { state = new_state; last_active = now }, ok tt)
unfolding transition touch
transition-valid s new_state now h = rw h refl

transition-invalid :
    (s : Session) (new_state : SessionState) (now : ℕ)
    → is_valid_transition s.state new_state ≡ false
    → transition s new_state now ≡ (s, err SessionError.invalid_state)
unfolding transition
transition-invalid s new_state now h = rw h refl

-- A request either is one of the allowed steps, which it makes, or is refused and changes nothing.
pub transition_lem :
    (s : Session) (new_state : SessionState) (now : ℕ)
    → (Step s.state new_state
        × (transition s new_state now ≡ (record s { state = new_state; last_active = now }, ok tt)))
      ⊎ (¬ Step s.state new_state
          × (transition s new_state now ≡ (s, err SessionError.invalid_state)))
transition_lem s new_state now = elim (Bool-cases (is_valid_transition s.state new_state)) [
  | inl h ↦ inl (is_valid_transition-Step s.state new_state h, transition-valid s new_state now h)
  | inr h ↦ inr (
    (λ step. absurd (true≢false (sym (Step-is_valid step) ∙ h))),
    transition-invalid s new_state now h,
  )
]

request_all-rank :
    (s : Session) (requests : List (SessionState × ℕ))
    → (request_all s requests).1 + rank s.state ≤ rank (request_all s requests).0.state
unfolding request_all accepted
request_all-rank s [] = omega arith
request_all-rank s ((new_state, now) ∷ requests) = elim (transition_lem s new_state now) [
  | inl (step, e) ↦ ground (
    arith,
    e,
    rank-Step step,
    request_all-rank (record s { state = new_state; last_active = now }) requests,
  )
  | inr (_, e) ↦ ground (arith, e, request_all-rank s requests)
]

-- Whatever states are requested, a session accepts only as many requests as its state has moved
-- forward, so at most four in its life, and none once it is closed.
pub request_all_lem :
    (s : Session) (requests : List (SessionState × ℕ))
    → ((request_all s requests).1 + rank s.state ≤ rank (request_all s requests).0.state)
      × (rank (request_all s requests).0.state ≤ 4)
request_all_lem s requests = (request_all-rank s requests, rank_le (request_all s requests).0.state)
