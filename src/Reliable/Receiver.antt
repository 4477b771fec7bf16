-- ===== src/Reliable/Receiver.antt =====
-- `ReliableReceiver` of crates/protocol/src/reliable.rs. The warning that `deliver` logs is left out.
pub mod Order
pub mod Stall
use lan_link.Prelude.{
  ℕ, zero, suc, List, [], ◌∷◌, length, Bool, true, false, ◌&&◌, Option, none, some, ltb, leb, ◌==◌,
  if◌then◌else◌,
}
use lan_link.Prelude.Words.{wrapping_add_u32, wrapping_sub_u32}
use lan_link.Reliable.Sender.{window_size}

pub record ReliableReceiver : Type 0 where
  pub stream_id : ℕ
  pub next_expected : ℕ
  -- Out-of-order packets: (seq, data).
  pub ooo_buffer : List (ℕ × List ℕ)
  pub last_ack_seq : ℕ
  pub last_ack_bitmap : ℕ

unfoldable pub new : ℕ → ReliableReceiver
new stream_id = record {
  stream_id = stream_id;
  next_expected = 0;
  ooo_buffer = [];
  last_ack_seq = 0;
  last_ack_bitmap = 0;
}

-- The loop that takes consecutive packets from the front of the buffer: the next sequence number
-- after it, the buffer, and the payloads in order.
unfoldable pub drain : ℕ → List (ℕ × List ℕ) → ℕ × List (ℕ × List ℕ) × List (List ℕ)
drain next [] = (next, [], [])
drain next ((s, payload) ∷ buffer) =
    let (next', left, out) = drain (wrapping_add_u32 next 1) buffer in
    if s == next then (next', left, payload ∷ out) else (next, (s, payload) ∷ buffer, [])

-- `iter().position(|(s, _)| seq.wrapping_sub(*s) < dist).unwrap_or(len)`.
unfoldable pub insert_pos : ℕ → ℕ → List (ℕ × List ℕ) → ℕ
insert_pos seq dist [] = 0
insert_pos seq dist ((s, _) ∷ buffer) =
    if ltb (wrapping_sub_u32 seq s) dist then 0 else suc (insert_pos seq dist buffer)

-- `insert_pos < len && self.ooo_buffer[insert_pos].0 == seq`.
unfoldable pub holds_at : ℕ → ℕ → List (ℕ × List ℕ) → Bool
holds_at seq i [] = false
holds_at seq zero ((s, _) ∷ buffer) = s == seq
holds_at seq (suc i) (e ∷ buffer) = holds_at seq i buffer

-- `VecDeque::insert`.
unfoldable pub insert_at : ℕ → ℕ × List ℕ → List (ℕ × List ℕ) → List (ℕ × List ℕ)
insert_at zero e buffer = e ∷ buffer
insert_at (suc i) e [] = e ∷ []
insert_at (suc i) e (b ∷ buffer) = b ∷ insert_at i e buffer

-- The receiver after a packet, and the payloads that are ready for the application.
unfoldable pub deliver : ReliableReceiver → ℕ → List ℕ → ReliableReceiver × List (List ℕ)
deliver r seq payload =
    let dist = wrapping_sub_u32 seq r.next_expected in
    if dist == 0
    then (let (next, left, out) = drain (wrapping_add_u32 r.next_expected 1) r.ooo_buffer in
        (record r { next_expected = next; ooo_buffer = left }, payload ∷ out))
    else if ltb 0 dist && leb dist window_size
    then (let i = insert_pos seq dist r.ooo_buffer in
        if holds_at seq i r.ooo_buffer
        then (r, [])
        else (record r { ooo_buffer = insert_at i (seq, payload) r.ooo_buffer }, []))
    else (r, [])

unfoldable pub ack_info : ReliableReceiver → ℕ × ℕ
ack_info r = (wrapping_sub_u32 r.next_expected 1, r.last_ack_bitmap)
