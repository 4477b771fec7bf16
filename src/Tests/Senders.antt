-- ===== src/Tests/Senders.antt =====
-- `ReliableSender` of crates/protocol/src/reliable.rs on concrete inputs.
use mathlib.Core.Option
use lan_link.Prelude.{
  length, ◌≤◌, ◌%◌, ◌^◌, ◌-◌, ℕ, zero, suc, ◌+◌, ◌≤◌, ◌≡◌, refl, Bool, true, false, not, List, [],
  ◌∷◌, length, none, some, arith,
}
use lan_link.Frame.Header.{decode}
use lan_link.Reliable.Sender.{
  SendSlot, ReliableSender, new, data_header, encode_packet, send, is_covered, mark_acked, slide,
  on_ack, retransmit, tag, poll_retransmit,
}
use lan_link.Reliable.Sender.Window.{Inv, Call, sends, acks, polls, step, run, run-Inv}
use lan_link.Reliable.Sender.Packets.{send_lem}
use lan_link.Reliable.Sender.Acks.{pending, keep, covers, StartsPending, on_ack-pending}
use lan_link.Reliable.Sender.Retransmit.{budget, IsBlocked, blocked_forever}
use lan_link.Tests.ReferenceWire.{wire}

program : Unit {0}
unfolding new encode_packet send is_covered mark_acked slide on_ack retransmit tag poll_retransmit
    step run pending keep budget
program = tt

-- Three packets at times 0, 1 and 2 (in units of 100 ms).
abbrev three : List Call
three = sends (1 ∷ []) 0 ∷ sends (2 ∷ []) 100_000_000 ∷ sends (3 ∷ []) 200_000_000 ∷ []

abbrev pub slot : ℕ → ℕ → ℕ → ℕ → Bool → SendSlot
slot seq byte at tries done = record {
  seq = seq;
  data_ = byte ∷ [];
  sent_at = at;
  retries = tries;
  acked = done;
}

-- The middle packet is acknowledged first, and the window waits for the first.
after_ack : run wire (new 42 0) (sends (1 ∷ []) 0 ∷ sends (2 ∷ []) 1 ∷ acks 1 0 ∷ []) ≡ record {
  conn_id = 42;
  stream_id = 0;
  next_seq = 2;
  window_base = 0;
  slots = slot 0 1 0 0 false ∷ slot 1 2 1 0 true ∷ [];
}
unfolding program
after_ack = refl

-- Bit 1 of the bitmap names the packet two above the acknowledged one.
after_bitmap : (on_ack (run wire (new 42 0) three) 0 2).1 ≡ 0 ∷ 2 ∷ []
unfolding program
after_bitmap = refl

resent :
    (poll_retransmit (run wire (new 42 0) three) 300_000_000).1
    ≡ (42, 0, 0, 1 ∷ []) ∷ (42, 0, 1, 2 ∷ []) ∷ []
unfolding program
resent = refl

run-Inv_example : Inv (run wire (new 42 0) three)
run-Inv_example = run-Inv wire 42 0 three

abbrev pub busy : ReliableSender
busy = record {
  conn_id = 42;
  stream_id = 0;
  next_seq = 1;
  window_base = 0xffff_ffff;
  slots = slot 0xffff_ffff 1 0 10 false ∷ slot 0 2 1 0 true ∷ [];
}

pub busy-Inv : Inv busy
busy-Inv = record {
  base_u32 = omega arith;
  consecutive = (refl, (refl, refl));
  bounded = omega arith;
  front = refl;
}

send_lem_example :
    (Option.map (decode wire) (send wire busy (9 ∷ []) 5).1
      ≡ some (some (data_header wire 42 0 1 (9 ∷ [])), 9 ∷ []))
    × ((data_header wire 42 0 1 (9 ∷ [])).payload_len ≡ 1)
    × (length (send wire busy (9 ∷ []) 5).0.slots ≡ 3)
send_lem_example =
    send_lem wire busy (9 ∷ []) 5 busy-Inv (omega arith) (omega arith) (omega arith) (omega arith)

on_ack-pending_example :
    ((on_ack busy 0xffff_ffff 0).1 ≡ keep (covers 0xffff_ffff 0) (pending busy.slots))
    × (pending (on_ack busy 0xffff_ffff 0).0.slots
        ≡ keep (λ q. not (covers 0xffff_ffff 0 q)) (pending busy.slots))
    × StartsPending (on_ack busy 0xffff_ffff 0).0.slots
    × (length (on_ack busy 0xffff_ffff 0).0.slots ≤ length busy.slots)
    × ((on_ack busy 0xffff_ffff 0).0.window_base % 2 ^ 32
        ≡ (busy.window_base + (length busy.slots - length (on_ack busy 0xffff_ffff 0).0.slots))
          % 2 ^ 32)
on_ack-pending_example = on_ack-pending busy 0xffff_ffff 0

-- 32 packets from `base` on, each sent once more ten times.
abbrev worn : ℕ → ℕ → List SendSlot
worn base zero = []
worn base (suc n) = slot base 0 0 10 false ∷ worn (base + 1) n

abbrev jammed : ReliableSender
jammed = record { conn_id = 42; stream_id = 0; next_seq = 32; window_base = 0; slots = worn 0 32 }

jammed-IsBlocked : IsBlocked 0 jammed
jammed-IsBlocked = record {
  inv = record {
    base_u32 = omega arith;
    consecutive = omega arith;
    bounded = omega arith;
    front = refl;
  };
  full = refl;
  dead = (refl, refl, omega arith);
}

blocked_forever_example :
    ((send wire (run wire jammed (polls 9 ∷ acks 1 0 ∷ [])) (1 ∷ []) 9).1 ≡ none)
    × (length (poll_retransmit (run wire jammed (polls 9 ∷ acks 1 0 ∷ [])) 9).1 ≤ 31)
unfolding program
blocked_forever_example =
    blocked_forever wire 0 jammed (polls 9 ∷ acks 1 0 ∷ []) (1 ∷ []) 9 jammed-IsBlocked
      (tt, (refl, tt))
