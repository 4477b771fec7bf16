-- ===== src/Reliable/Receiver/Stall.antt =====
-- The order of the buffer of `ReliableReceiver`, and what it costs (crates/protocol/src/reliable.rs).
use lan_link.Prelude.{
  ℕ, ◌≤◌, ◌<◌, ◌≡◌, refl, ap, sym, subst, ◌∙◌, List, [], ◌∷◌, length, All, if◌then◌else◌, arith,
}
use lan_link.Prelude.Words.{u32_mod, wrapping_sub_u32}
use lan_link.Reliable.Receiver.{ReliableReceiver, drain, insert_pos, holds_at, insert_at, deliver}

-- The distances from `next` fall along the buffer; all are below `bound`, and none is 0.
abbrev pub Falling : ℕ → ℕ → List (ℕ × List ℕ) → Type 0
Falling next bound [] = Unit {0}
Falling next bound ((s, _) ∷ buffer) =
    (s < u32_mod)
    × (1 ≤ wrapping_sub_u32 s next)
    × (wrapping_sub_u32 s next < bound)
    × Falling next (wrapping_sub_u32 s next) buffer

-- What `deliver` does to the buffer with a packet from the window.
abbrev place : ℕ → ℕ → List ℕ → List (ℕ × List ℕ) → List (ℕ × List ℕ)
place seq dist payload buffer =
    let i = insert_pos seq dist buffer in
    if holds_at seq i buffer then buffer else insert_at i (seq, payload) buffer

place-Falling :
    (next bound seq : ℕ) (payload : List ℕ) (buffer : List (ℕ × List ℕ))
    → next < u32_mod
    → seq < u32_mod
    → 1 ≤ wrapping_sub_u32 seq next
    → wrapping_sub_u32 seq next < bound
    → Falling next bound buffer
    → Falling next bound (place seq (wrapping_sub_u32 seq next) payload buffer)
unfolding insert_pos holds_at insert_at
place-Falling next bound seq payload [] hn hs low high f = (hs, low, high, tt)
place-Falling next bound seq payload ((s, p) ∷ buffer) hn hs low high f =
    ground (arith, place-Falling next (wrapping_sub_u32 s next) seq payload buffer hn hs low)

-- The packets that arrive, each with its payload, one after another.
unfoldable pub arrive : ReliableReceiver → List (ℕ × List ℕ) → ReliableReceiver
arrive r [] = r
arrive r ((seq, payload) ∷ packets) = arrive (deliver r seq payload).0 packets

-- The packet lies in the window ahead of `next`, and is not `next` itself.
abbrev pub IsAhead : ℕ → ℕ × List ℕ → Type 0
IsAhead next (seq, payload) =
    (seq < u32_mod) × (1 ≤ wrapping_sub_u32 seq next) × (wrapping_sub_u32 seq next ≤ 32)

deliver_ahead :
    (r : ReliableReceiver) (seq : ℕ) (payload : List ℕ)
    → IsAhead r.next_expected (seq, payload)
    → (deliver r seq payload).0 ≡ record r {
      ooo_buffer = place seq (wrapping_sub_u32 seq r.next_expected) payload r.ooo_buffer;
    }
unfolding deliver
deliver_ahead r seq payload h = ground arith

arrive-Falling :
    (next : ℕ) (r : ReliableReceiver) (packets : List (ℕ × List ℕ))
    → next < u32_mod
    → r.next_expected ≡ next
    → Falling next 33 r.ooo_buffer
    → All (IsAhead next) packets
    → ((arrive r packets).next_expected ≡ next) × Falling next 33 (arrive r packets).ooo_buffer
unfolding arrive
arrive-Falling next r [] h e f a = (e, f)
arrive-Falling next r ((seq, payload) ∷ packets) h e f a =
    let ahead = subst (λ n. IsAhead n (seq, payload)) (sym e) a.0 in
    let now = deliver_ahead r seq payload ahead in
    arrive-Falling next (deliver r seq payload).0 packets h
      (ap (λ (q : ReliableReceiver). q.next_expected) now ∙ e)
      (subst (λ (q : ReliableReceiver). Falling next 33 q.ooo_buffer) (sym now)
        (subst (λ n. Falling next 33 (place seq (wrapping_sub_u32 seq n) payload r.ooo_buffer))
          (sym e) (place-Falling next 33 seq payload r.ooo_buffer h a.0.0 a.0.1 (omega arith) f)))
      a.1

deliver_stalls :
    (next : ℕ) (r : ReliableReceiver) (payload : List ℕ) (buffer : List (ℕ × List ℕ))
    → next < u32_mod
    → r.next_expected ≡ next
    → r.ooo_buffer ≡ buffer
    → Falling next 33 buffer
    → 2 ≤ length buffer
    → ((deliver r next payload).1 ≡ payload ∷ []) × ((deliver r next payload).0.ooo_buffer ≡ buffer)
unfolding deliver drain
deliver_stalls next r payload [] h g e f n = absurd (omega arith)
deliver_stalls next r payload (x ∷ []) h g e f n = absurd (omega arith)
deliver_stalls next r payload ((s, p) ∷ (t, q) ∷ buffer) h g e f n = ground arith

-- Packets arrive ahead of their turn, none of them the expected one, at a receiver whose buffer is
-- empty. When two or more of them wait and the expected packet comes, it is handed over alone and the
-- whole buffer stays, also where it holds the very next packet.
pub arrive_stalls :
    (r : ReliableReceiver) (packets : List (ℕ × List ℕ)) (payload : List ℕ)
    → r.next_expected < u32_mod
    → r.ooo_buffer ≡ []
    → All (IsAhead r.next_expected) packets
    → 2 ≤ length (arrive r packets).ooo_buffer
    → ((deliver (arrive r packets) r.next_expected payload).1 ≡ payload ∷ [])
      × ((deliver (arrive r packets) r.next_expected payload).0.ooo_buffer
          ≡ (arrive r packets).ooo_buffer)
arrive_stalls r packets payload h e a n =
    let (same, f) =
      arrive-Falling r.next_expected r packets h refl
        (subst (Falling r.next_expected 33) (sym e) tt) a in
    deliver_stalls r.next_expected (arrive r packets) payload (arrive r packets).ooo_buffer h same
      refl f n
