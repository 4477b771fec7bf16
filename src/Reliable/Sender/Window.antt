-- ===== src/Reliable/Sender/Window.antt =====
-- The send window of `ReliableSender` (crates/protocol/src/reliable.rs) stays well formed.
use lan_link.Prelude.{
  ℕ, ◌+◌, ◌%◌, ◌≤◌, ◌<◌, ◌≡◌, refl, List, [], ◌∷◌, ◌++◌, length, length-append, false, arith,
  dec_lt,
}
use lan_link.Prelude.Words.{u32_mod, wrapping_add_u32, wrapping_sub_u32}
use lan_link.Frame.Wire.{Wire}
use lan_link.Reliable.Sender.{
  SendSlot, ReliableSender, new, send, mark_acked, slide, on_ack, retransmit, poll_retransmit,
}

-- The slots hold the sequence numbers from `b` up to `n`, in order.
abbrev pub Consecutive : ℕ → List SendSlot → ℕ → Type 0
Consecutive b [] n = b ≡ n
Consecutive b (x ∷ xs) n = (x.seq ≡ b) × Consecutive (wrapping_add_u32 b 1) xs n

abbrev pub FrontPending : List SendSlot → Type 0
FrontPending [] = Unit {0}
FrontPending (x ∷ xs) = x.acked ≡ false

pub record Inv (s : ReliableSender) : Type 0 where
  pub base_u32 : s.window_base < u32_mod
  pub consecutive : Consecutive s.window_base s.slots s.next_seq
  pub bounded : length s.slots ≤ 32
  pub front : FrontPending s.slots

Consecutive-push :
    (b n : ℕ) (xs : List SendSlot) (x : SendSlot)
    → Consecutive b xs n
    → x.seq ≡ n
    → Consecutive b (xs ++ x ∷ []) (wrapping_add_u32 n 1)
Consecutive-push b n [] x c e = ground arith
Consecutive-push b n (y ∷ ys) x c e = (c.0, Consecutive-push (wrapping_add_u32 b 1) n ys x c.1 e)

FrontPending-push :
    (xs : List SendSlot) (x : SendSlot)
    → FrontPending xs
    → x.acked ≡ false
    → FrontPending (xs ++ x ∷ [])
FrontPending-push [] x f e = e
FrontPending-push (y ∷ ys) x f e = f

-- The distance that `send` tests is the number of slots.
pub Consecutive-next :
    (b n : ℕ) (xs : List SendSlot)
    → b < u32_mod
    → Consecutive b xs n
    → n ≡ (b + length xs) % u32_mod
Consecutive-next b n [] h c = omega arith
Consecutive-next b n (x ∷ xs) h c =
    omega (arith, Consecutive-next (wrapping_add_u32 b 1) n xs (omega arith) c.1)

pub wrapping_sub-length :
    (s : ReliableSender) → Inv s → wrapping_sub_u32 s.next_seq s.window_base ≡ length s.slots
wrapping_sub-length s v =
    omega (arith, Consecutive-next s.window_base s.next_seq s.slots v.base_u32 v.consecutive)

pub mark_acked-Consecutive :
    (a m b n : ℕ) (xs : List SendSlot)
    → Consecutive b xs n
    → Consecutive b (mark_acked a m xs).0 n × (length (mark_acked a m xs).0 ≡ length xs)
unfolding mark_acked
mark_acked-Consecutive a m b n [] c = (c, refl)
mark_acked-Consecutive a m b n (x ∷ xs) c =
    ground (arith, mark_acked-Consecutive a m (wrapping_add_u32 b 1) n xs c.1)

slide_lem :
    (b n : ℕ) (xs : List SendSlot)
    → b < u32_mod
    → Consecutive b xs n
    → ((slide b xs).0 < u32_mod)
      × Consecutive (slide b xs).0 (slide b xs).1 n
      × (length (slide b xs).1 ≤ length xs)
      × FrontPending (slide b xs).1
unfolding slide
slide_lem b n [] h c = (h, c, omega arith, tt)
slide_lem b n (x ∷ xs) h c = ground (arith, slide_lem (wrapping_add_u32 b 1) n xs (omega arith) c.1)

pub retransmit_lem :
    (now b n : ℕ) (xs : List SendSlot)
    → Consecutive b xs n
    → Consecutive b (retransmit now xs).0 n
      × (length (retransmit now xs).0 ≡ length xs)
      × (FrontPending xs → FrontPending (retransmit now xs).0)
unfolding retransmit
retransmit_lem now b n [] c = (c, refl, λ f. tt)
retransmit_lem now b n (x ∷ xs) c =
    ground (arith, retransmit_lem now (wrapping_add_u32 b 1) n xs c.1)

new-Inv : (conn_id stream_id : ℕ) → Inv (new conn_id stream_id)
unfolding new
new-Inv conn_id stream_id = record {
  base_u32 = omega arith;
  consecutive = refl;
  bounded = omega arith;
  front = tt;
}

abbrev pub fresh_slot : ReliableSender → List ℕ → ℕ → SendSlot
fresh_slot s p now = record {
  seq = s.next_seq;
  data_ = p;
  sent_at = now;
  retries = 0;
  acked = false;
}

push-Inv :
    (s : ReliableSender) (p : List ℕ) (now : ℕ)
    → Inv s
    → length s.slots < 32
    → Inv (record s {
      next_seq = wrapping_add_u32 s.next_seq 1;
      slots = s.slots ++ fresh_slot s p now ∷ [];
    })
push-Inv s p now v h = record {
  base_u32 = v.base_u32;
  consecutive =
      Consecutive-push s.window_base s.next_seq s.slots (fresh_slot s p now) v.consecutive refl;
  bounded = omega (arith, length-append s.slots (fresh_slot s p now ∷ []));
  front = FrontPending-push s.slots (fresh_slot s p now) v.front refl;
}

send-Inv : (w : Wire) (s : ReliableSender) (p : List ℕ) (now : ℕ) → Inv s → Inv (send w s p now).0
unfolding send
send-Inv w s p now v = elim (dec_lt (length s.slots) 32) [
  | yes h ↦ ground (arith, wrapping_sub-length s v, push-Inv s p now v h)
  | no h ↦ ground (arith, wrapping_sub-length s v)
]

on_ack-Inv : (s : ReliableSender) (a m : ℕ) → Inv s → Inv (on_ack s a m).0
unfolding on_ack
on_ack-Inv s a m v =
    let (run, same) = mark_acked-Consecutive a m s.window_base s.next_seq s.slots v.consecutive in
    let (base, run', shorter, front) =
      slide_lem s.window_base s.next_seq (mark_acked a m s.slots).0 v.base_u32 run in
    record {
      base_u32 = base;
      consecutive = run';
      bounded = omega (arith, shorter, same, v.bounded);
      front = front;
    }

poll_retransmit-Inv : (s : ReliableSender) (now : ℕ) → Inv s → Inv (poll_retransmit s now).0
unfolding poll_retransmit
poll_retransmit-Inv s now v =
    let (run, same, front) = retransmit_lem now s.window_base s.next_seq s.slots v.consecutive in
    record {
      base_u32 = v.base_u32;
      consecutive = run;
      bounded = omega (arith, same, v.bounded);
      front = front v.front;
    }

-- The three operations, as calls.
pub data Call : Type 0 where
  sends : List ℕ → ℕ → Call
  acks : ℕ → ℕ → Call
  polls : ℕ → Call

unfoldable pub step : Wire → ReliableSender → Call → ReliableSender
step w s (sends payload now) = (send w s payload now).0
step w s (acks ack_seq ack_bitmap) = (on_ack s ack_seq ack_bitmap).0
step w s (polls now) = (poll_retransmit s now).0

unfoldable pub run : Wire → ReliableSender → List Call → ReliableSender
run w s [] = s
run w s (c ∷ cs) = run w (step w s c) cs

pub step-Inv : (w : Wire) (s : ReliableSender) (c : Call) → Inv s → Inv (step w s c)
unfolding step
step-Inv w s (sends payload now) v = send-Inv w s payload now v
step-Inv w s (acks ack_seq ack_bitmap) v = on_ack-Inv s ack_seq ack_bitmap v
step-Inv w s (polls now) v = poll_retransmit-Inv s now v

pub run_from-Inv : (w : Wire) (s : ReliableSender) (cs : List Call) → Inv s → Inv (run w s cs)
unfolding run
run_from-Inv w s [] v = v
run_from-Inv w s (c ∷ cs) v = run_from-Inv w (step w s c) cs (step-Inv w s c v)

-- After any sequence of sends, ACKs and polls on a new sender, the slots hold exactly the sequence
-- numbers from `window_base` up to `next_seq` (modulo 2 ^ 32), at most 32 of them, and the oldest
-- one is not acknowledged.
pub run-Inv :
    (w : Wire) (conn_id stream_id : ℕ) (cs : List Call) → Inv (run w (new conn_id stream_id) cs)
run-Inv w conn_id stream_id cs =
    run_from-Inv w (new conn_id stream_id) cs (new-Inv conn_id stream_id)
