-- ===== src/Tests/Receivers.antt =====
-- `ReliableReceiver` of crates/protocol/src/reliable.rs on concrete inputs.
use lan_link.Prelude.{ℕ, ◌+◌, ◌%◌, ◌^◌, ◌≡◌, refl, List, [], ◌∷◌, map, length, arith}
use lan_link.Reliable.Receiver.{new, drain, insert_pos, holds_at, insert_at, deliver, ack_info}
use lan_link.Reliable.Receiver.Order.{seqs, deliver_all, deliver_all_in_order}
use lan_link.Reliable.Receiver.Stall.{arrive, arrive_stalls}

program : Unit {0}
unfolding new drain insert_pos holds_at insert_at deliver ack_info seqs deliver_all arrive
program = tt

abbrev sent : ℕ → List ℕ
sent q = (q + 100) ∷ []

-- One packet that overtakes its neighbour is put back into place.
swapped : (deliver_all sent (new 0) (1 ∷ 0 ∷ [])).1 ≡ sent 0 ∷ sent 1 ∷ []
unfolding program
swapped = refl

-- Two that overtake are not, even when the sender repeats the second.
jumbled : (deliver_all sent (new 0) (2 ∷ 1 ∷ 0 ∷ 1 ∷ [])).1 ≡ sent 0 ∷ sent 1 ∷ sent 2 ∷ []
unfolding program
jumbled = refl

stuck : (deliver_all sent (new 0) (2 ∷ 1 ∷ 0 ∷ [])).1 ≡ sent 0 ∷ []
unfolding program
stuck = refl

deliver_all_in_order_example :
    ((deliver_all sent (new 0) (2 ∷ 1 ∷ 0 ∷ [])).1
      ≡ map sent (seqs 0 (length (deliver_all sent (new 0) (2 ∷ 1 ∷ 0 ∷ [])).1)))
    × ((deliver_all sent (new 0) (2 ∷ 1 ∷ 0 ∷ [])).0.next_expected
        ≡ length (deliver_all sent (new 0) (2 ∷ 1 ∷ 0 ∷ [])).1 % 2 ^ 32)
deliver_all_in_order_example = deliver_all_in_order sent 0 (2 ∷ 1 ∷ 0 ∷ []) (omega arith)

abbrev early : List (ℕ × List ℕ)
early = (1, sent 1) ∷ (2, sent 2) ∷ []

arrive_stalls_example :
    ((deliver (arrive (new 0) early) 0 (sent 0)).1 ≡ sent 0 ∷ [])
    × ((deliver (arrive (new 0) early) 0 (sent 0)).0.ooo_buffer ≡ (arrive (new 0) early).ooo_buffer)
unfolding program
arrive_stalls_example =
    arrive_stalls (new 0) early (sent 0) (omega arith) refl (omega arith) (omega arith)
