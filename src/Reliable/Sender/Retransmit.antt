-- ===== src/Reliable/Sender/Retransmit.antt =====
-- Retransmission by `ReliableSender::poll_retransmit` (crates/protocol/src/reliable.rs).
use lan_link.Prelude.{
  ℕ, ◌+◌, ◌-◌, ◌≤◌, ◌≡◌, refl, ap, sym, subst, ◌∙◌, All, List, [], ◌∷◌, length, length-map, false,
  none, if◌then◌else◌, arith,
}
use lan_link.Frame.Wire.{Wire}
use lan_link.Reliable.Sender.{
  SendSlot, ReliableSender, max_retries, send, is_covered, mark_acked, slide, on_ack, retransmit,
  tag, poll_retransmit,
}
use lan_link.Reliable.Sender.Window.{
  Inv, Call, sends, acks, polls, step, run, step-Inv, wrapping_sub-length, mark_acked-Consecutive,
  retransmit_lem,
}

-- A slot that waits for an ACK can be sent again `max_retries - retries` times.
abbrev slot_budget : SendSlot → ℕ
slot_budget x = if x.acked then 0 else max_retries - x.retries

unfoldable pub budget : List SendSlot → ℕ
budget [] = 0
budget (x ∷ xs) = slot_budget x + budget xs

retransmit-budget :
    (now : ℕ) (xs : List SendSlot)
    → length (retransmit now xs).1 + budget (retransmit now xs).0 ≡ budget xs
unfolding retransmit budget
retransmit-budget now [] = refl
retransmit-budget now (x ∷ xs) = ground (arith, retransmit-budget now xs)

retransmit_again : (now : ℕ) (xs : List SendSlot) → (retransmit now (retransmit now xs).0).1 ≡ []
unfolding retransmit
retransmit_again now [] = refl
retransmit_again now (x ∷ xs) = ground (arith, retransmit_again now xs)

length-tag : (c i : ℕ) (rs : List (ℕ × List ℕ)) → length (tag c i rs) ≡ length rs
unfolding tag
length-tag c i rs = length-map rs _

-- Each retransmission uses up one of the `max_retries` attempts of its slot, so that the number of
-- retransmissions is bounded by the attempts left; and a second poll at the same time sends nothing.
pub poll_retransmit_bounded :
    (s : ReliableSender) (now : ℕ)
    → (length (poll_retransmit s now).1 + budget (poll_retransmit s now).0.slots ≡ budget s.slots)
      × ((poll_retransmit (poll_retransmit s now).0 now).1 ≡ [])
unfolding poll_retransmit tag
poll_retransmit_bounded s now = (
  omega (
    arith,
    length-tag s.conn_id s.stream_id (retransmit now s.slots).1,
    retransmit-budget now s.slots,
  ),
  ap (tag s.conn_id s.stream_id) (retransmit_again now s.slots),
)

-- The window is full and its oldest slot waits for the ACK of `q`, with no attempt left.
abbrev DeadFront : ℕ → List SendSlot → Type 0
DeadFront q [] = ⊥
DeadFront q (x ∷ xs) = (x.seq ≡ q) × (x.acked ≡ false) × (max_retries ≤ x.retries)

pub record IsBlocked (q : ℕ) (s : ReliableSender) : Type 0 where
  pub inv : Inv s
  pub full : length s.slots ≡ 32
  pub dead : DeadFront q s.slots

-- The call is no ACK that covers `q`.
abbrev pub Misses : ℕ → Call → Type 0
Misses q (sends payload now) = Unit {0}
Misses q (acks ack_seq ack_bitmap) = is_covered ack_seq ack_bitmap q ≡ false
Misses q (polls now) = Unit {0}

mark_dead :
    (q a m b : ℕ) (xs : List SendSlot)
    → is_covered a m q ≡ false
    → DeadFront q xs
    → DeadFront q (mark_acked a m xs).0
      × ((slide b (mark_acked a m xs).0).1 ≡ (mark_acked a m xs).0)
unfolding mark_acked slide
mark_dead q a m b [] h d = absurd d
mark_dead q a m b (x ∷ xs) h d = ground arith

retransmit_dead :
    (q now : ℕ) (xs : List SendSlot) → DeadFront q xs → DeadFront q (retransmit now xs).0
unfolding retransmit
retransmit_dead q now [] d = absurd d
retransmit_dead q now (x ∷ xs) d = ground arith

send_full :
    (w : Wire) (s : ReliableSender) (payload : List ℕ) (now : ℕ)
    → Inv s
    → length s.slots ≡ 32
    → send w s payload now ≡ (s, none)
unfolding send
send_full w s payload now v h = ground (arith, wrapping_sub-length s v)

acks-IsBlocked :
    (w : Wire) (q : ℕ) (s : ReliableSender) (a m : ℕ)
    → is_covered a m q ≡ false
    → IsBlocked q s
    → IsBlocked q (step w s (acks a m))
unfolding step on_ack
acks-IsBlocked w q s a m h b =
    let (dead, kept) = mark_dead q a m s.window_base s.slots h b.dead in
    let (_, same) = mark_acked-Consecutive a m s.window_base s.next_seq s.slots b.inv.consecutive in
    record {
      inv = step-Inv w s (acks a m) b.inv;
      full = ap length kept ∙ same ∙ b.full;
      dead = subst (DeadFront q) (sym kept) dead;
    }

polls-IsBlocked :
    (w : Wire) (q : ℕ) (s : ReliableSender) (now : ℕ)
    → IsBlocked q s
    → IsBlocked q (step w s (polls now))
unfolding step poll_retransmit
polls-IsBlocked w q s now b =
    let (_, same, _) = retransmit_lem now s.window_base s.next_seq s.slots b.inv.consecutive in
    record {
      inv = step-Inv w s (polls now) b.inv;
      full = same ∙ b.full;
      dead = retransmit_dead q now s.slots b.dead;
    }

step-IsBlocked :
    (w : Wire) (q : ℕ) (s : ReliableSender) (c : Call)
    → Misses q c
    → IsBlocked q s
    → IsBlocked q (step w s c)
unfolding step
step-IsBlocked w q s (sends payload now) h b =
    subst (IsBlocked q) (sym (ap (λ r. r.0) (send_full w s payload now b.inv b.full))) b
step-IsBlocked w q s (acks a m) h b = acks-IsBlocked w q s a m h b
step-IsBlocked w q s (polls now) h b = polls-IsBlocked w q s now b

length-retransmit-le : (now : ℕ) (xs : List SendSlot) → length (retransmit now xs).1 ≤ length xs
unfolding retransmit
length-retransmit-le now [] = omega arith
length-retransmit-le now (x ∷ xs) = ground (arith, length-retransmit-le now xs)

length-retransmit-dead :
    (q now : ℕ) (xs : List SendSlot) → DeadFront q xs → length (retransmit now xs).1 + 1 ≤ length xs
unfolding retransmit
length-retransmit-dead q now [] d = absurd d
length-retransmit-dead q now (x ∷ xs) d = ground (arith, length-retransmit-le now xs)

blocked_now :
    (w : Wire) (q : ℕ) (s : ReliableSender) (payload : List ℕ) (now : ℕ)
    → IsBlocked q s
    → ((send w s payload now).1 ≡ none) × (length (poll_retransmit s now).1 ≤ 31)
unfolding poll_retransmit
blocked_now w q s payload now b = (
  ap (λ r. r.1) (send_full w s payload now b.inv b.full),
  omega (
    arith,
    length-tag s.conn_id s.stream_id (retransmit now s.slots).1,
    length-retransmit-dead q now s.slots b.dead,
    b.full,
  ),
)

-- Once the window is full and its oldest packet has used up its attempts, no sequence of sends,
-- polls and ACKs that do not cover that packet lets another payload in, and a poll never sends more
-- than the 31 other packets.
pub blocked_forever :
    (w : Wire) (q : ℕ) (s : ReliableSender) (cs : List Call) (payload : List ℕ) (now : ℕ)
    → IsBlocked q s
    → All (Misses q) cs
    → ((send w (run w s cs) payload now).1 ≡ none)
      × (length (poll_retransmit (run w s cs) now).1 ≤ 31)
unfolding run
blocked_forever w q s [] payload now b m = blocked_now w q s payload now b
blocked_forever w q s (c ∷ cs) payload now b m =
    blocked_forever w q (step w s c) cs payload now (step-IsBlocked w q s c m.0 b) m.1
