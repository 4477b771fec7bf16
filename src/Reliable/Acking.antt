-- ===== src/Reliable/Acking.antt =====
-- What an ACK of `ReliableReceiver` tells `ReliableSender` (crates/protocol/src/reliable.rs).
use mathlib.Core.Option
use lan_link.Prelude.{ℕ, ◌-◌, ◌<◌, ◌≡◌, refl, ap, ◌∙◌, List, [], ◌∷◌, All, Bool, not, ◌==◌, arith}
use lan_link.Prelude.Words.{
  u32_mod, wrapping_sub_u32, wrapping_add_u32, checked_shl_one, zero-bit_and,
}
use lan_link.Reliable.Sender.{SendSlot, ReliableSender, is_covered, on_ack}
use lan_link.Reliable.Sender.Window.{Inv, Consecutive}
use lan_link.Reliable.Sender.Acks.{pending, keep, on_ack-marks}
use lan_link.Reliable.Receiver.{ReliableReceiver, new, deliver, ack_info}
use lan_link.Reliable.Receiver.Order.{deliver_all}

covered_alone : (a q : ℕ) → a < u32_mod → q < u32_mod → is_covered a 0 q ≡ (q == a)
unfolding is_covered
covered_alone a q ha hq =
    ground (arith, zero-bit_and (Option.get_or (checked_shl_one (wrapping_sub_u32 q a - 1)) 0))

keep_eq :
    (p q : ℕ → Bool) (xs : List ℕ)
    → ((x : ℕ) → x < u32_mod → p x ≡ q x)
    → All (λ x. x < u32_mod) xs
    → keep p xs ≡ keep q xs
unfolding keep
keep_eq p q [] h a = refl
keep_eq p q (x ∷ xs) h a = ground (arith, h x a.0, keep_eq p q xs h a.1)

pending_u32 :
    (b n : ℕ) (xs : List SendSlot)
    → b < u32_mod
    → Consecutive b xs n
    → All (λ q. q < u32_mod) (pending xs)
unfolding pending
pending_u32 b n [] h c = tt
pending_u32 b n (x ∷ xs) h c =
    ground (arith, pending_u32 (wrapping_add_u32 b 1) n xs (omega arith) c.1)

deliver-bitmap :
    (r : ReliableReceiver) (seq : ℕ) (payload : List ℕ)
    → (deliver r seq payload).0.last_ack_bitmap ≡ r.last_ack_bitmap
unfolding deliver
deliver-bitmap r seq payload = ground arith

deliver_all-bitmap :
    (sent : ℕ → List ℕ) (r : ReliableReceiver) (arrivals : List ℕ)
    → (deliver_all sent r arrivals).0.last_ack_bitmap ≡ r.last_ack_bitmap
unfolding deliver_all
deliver_all-bitmap sent r [] = refl
deliver_all-bitmap sent r (q ∷ qs) =
    deliver_all-bitmap sent (deliver r q (sent q)).0 qs ∙ deliver-bitmap r q (sent q)

acked_alone :
    (s : ReliableSender) (a : ℕ)
    → Inv s
    → a < u32_mod
    → pending (on_ack s a 0).0.slots ≡ keep (λ q. not (q == a)) (pending s.slots)
acked_alone s a v h =
    (on_ack-marks s a 0).1
    ∙ keep_eq (λ q. not (is_covered a 0 q)) (λ q. not (q == a)) (pending s.slots)
        (λ x g. ap not (covered_alone a x h g))
        (pending_u32 s.window_base s.next_seq s.slots v.base_u32 v.consecutive)

-- After any arrivals at a new receiver, its ACK takes exactly the packet just below `next_expected`
-- off the sender's pending ones: every other packet stays pending.
pub on_ack-ack_info :
    (sent : ℕ → List ℕ) (stream_id : ℕ) (arrivals : List ℕ) (s : ReliableSender)
    → Inv s
    → let r = (deliver_all sent (new stream_id) arrivals).0 in
      let a = wrapping_sub_u32 r.next_expected 1 in
      pending (on_ack s (ack_info r).0 (ack_info r).1).0.slots
      ≡ keep (λ q. not (q == a)) (pending s.slots)
unfolding ack_info new
on_ack-ack_info sent stream_id arrivals s v =
    let r = (deliver_all sent (new stream_id) arrivals).0 in
    let a = wrapping_sub_u32 r.next_expected 1 in
    ap (λ m. pending (on_ack s a m).0.slots) (deliver_all-bitmap sent (new stream_id) arrivals)
    ∙ acked_alone s a v (omega arith)
