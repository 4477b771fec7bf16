-- ===== src/Vpn/Session/Replay.antt =====
-- The counters of the messages of a session (crates/vpn/src/vpn/session.rs).
use lan_link.Prelude.{
  ℕ, suc, ◌+◌, ◌-◌, ◌%◌, ◌≤◌, ◌<◌, ◌≡◌, refl, ap, ◌∙◌, List, [], ◌∷◌, All, arith, dec_lt, subst,
  length, map,
}
use lan_link.Prelude.Words.{u64_mod}
use lan_link.Prelude.Result.{Result, ok, err}
use lan_link.Vpn.Session.{SessionError, Session, touch, next_send_counter, verify_recv_counter}

-- What is kept of a message with its counter.
unfoldable pub kept : Result SessionError Unit → ℕ → List ℕ → List ℕ
kept (ok _) counter rest = counter ∷ rest
kept (err _) counter rest = rest

-- Counters that arrive at the given times: those of the messages that are accepted, in order.
unfoldable pub accepted_of : Session → List (ℕ × ℕ) → List ℕ
accepted_of s [] = []
accepted_of s ((counter, now) ∷ arrivals) =
    let (s', result) = verify_recv_counter s counter now in
    kept result counter (accepted_of s' arrivals)

-- Strictly increasing, from `low` on.
abbrev pub Increasing : ℕ → List ℕ → Type 0
Increasing low [] = Unit
Increasing low (c ∷ cs) = (low ≤ c) × Increasing (suc c) cs

verify-accepts :
    (s : Session) (counter now : ℕ)
    → s.recv_counter ≤ counter
    → verify_recv_counter s counter now
      ≡ (record s { recv_counter = (counter + 1) % u64_mod; last_active = now }, ok tt)
unfolding verify_recv_counter touch
verify-accepts s counter now h = ground arith

verify-refuses :
    (s : Session) (counter now : ℕ)
    → counter < s.recv_counter
    → verify_recv_counter s counter now ≡ (s, err SessionError.invalid_state)
unfolding verify_recv_counter touch
verify-refuses s counter now h = ground arith

-- Of the messages that arrive, in any order and with any repetition, those that are accepted have
-- strictly increasing counters, so none is accepted twice, if no counter is 2 ^ 64 - 1.
pub accepted_of-Increasing :
    (s : Session) (arrivals : List (ℕ × ℕ))
    → All (λ a. a.0 < u64_mod - 1) arrivals
    → Increasing s.recv_counter (accepted_of s arrivals)
unfolding accepted_of kept
accepted_of-Increasing s [] h = tt
accepted_of-Increasing s ((counter, now) ∷ arrivals) h = elim (dec_lt counter s.recv_counter) [
  | yes p ↦ rw (verify-refuses s counter now p) (accepted_of-Increasing s arrivals h.1)
  | no p ↦
      let s' : Session = record s { recv_counter = (counter + 1) % u64_mod; last_active = now } in
      let e : (counter + 1) % u64_mod ≡ suc counter = omega arith in
      rw (verify-accepts s counter now (omega arith)) (
        omega arith,
        subst (λ n. Increasing n (accepted_of s' arrivals)) e
            (accepted_of-Increasing s' arrivals h.1),
      )
]

-- Messages that one side sends, each with the times at which it is sent and arrives: the counters and
-- the times of arrival.
unfoldable pub arriving : Session → List (ℕ × ℕ) → List (ℕ × ℕ)
arriving s [] = []
arriving s ((at, later) ∷ trips) =
    let (s', counter) = next_send_counter s at in (counter, later) ∷ arriving s' trips

-- Messages that arrive in the order in which the other side sent them are all accepted, if the
-- counters of both sides agree and stay below 2 ^ 64 - 1.
pub accepted_of-arriving :
    (s r : Session) (trips : List (ℕ × ℕ))
    → s.send_counter ≡ r.recv_counter
    → s.send_counter + length trips < u64_mod
    → accepted_of r (arriving s trips) ≡ map (λ a. a.0) (arriving s trips)
unfolding accepted_of arriving kept next_send_counter touch
accepted_of-arriving s r [] e h = refl
accepted_of-arriving s r ((at, later) ∷ trips) e h =
    let s' : Session = record s {
      send_counter = (s.send_counter + 1) % u64_mod;
      last_active = at;
    } in
    let r' : Session = record r {
      recv_counter = (s.send_counter + 1) % u64_mod;
      last_active = later;
    } in
    rw (verify-accepts r s.send_counter later (omega arith))
      (ap (◌∷◌ s.send_counter) (accepted_of-arriving s' r' trips refl (omega arith)))

-- A message with the counter 2 ^ 64 - 1 is accepted and sets the expected counter back to 0: after
-- it, a message with any counter is accepted, whatever was accepted before.
pub verify_recv_counter-wraps :
    (s : Session) (counter now later : ℕ)
    → s.recv_counter < u64_mod
    → counter < u64_mod
    → ((verify_recv_counter s (u64_mod - 1) now).1 ≡ ok tt)
      × ((verify_recv_counter (verify_recv_counter s (u64_mod - 1) now).0 counter later).1 ≡ ok tt)
verify_recv_counter-wraps s counter now later h g =
    let first = verify-accepts s (u64_mod - 1) now (omega arith) in
    (
      ap (λ r. r.1) first,
      ap (λ r. (verify_recv_counter r.0 counter later).1) first
          ∙ ap (λ r. r.1)
              (verify-accepts
                (record s { recv_counter = (u64_mod - 1 + 1) % u64_mod; last_active = now }) counter
                later (omega arith)),
    )
