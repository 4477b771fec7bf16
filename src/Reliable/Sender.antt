-- ===== src/Reliable/Sender.antt =====
-- `ReliableSender` of crates/protocol/src/reliable.rs. Sequence numbers are u32 and wrap, as in a
-- release build. The clock is an argument, in nanoseconds.
pub mod Window
pub mod Packets
pub mod Acks
pub mod Retransmit
use Prim.Native.Nat.{bit_and}
use mathlib.Core.Option
use lan_link.Prelude.{
  ℕ, ◌+◌, ◌-◌, ◌*◌, ◌%◌, ◌^◌, List, [], ◌∷◌, ◌++◌, length, map, replicate, Bool, true, false, not,
  ◌&&◌, ◌||◌, Option, none, some, ltb, leb, ◌==◌, if◌then◌else◌,
}
use lan_link.Prelude.Words.{u16_mod, u32_mod, wrapping_add_u32, wrapping_sub_u32, checked_shl_one}
use lan_link.Frame.Wire.{Wire}
use lan_link.Frame.Types.{PacketType}
use lan_link.Frame.Header.{PacketHeader, encode}

abbrev pub window_size : ℕ
window_size = 32

-- 200 ms in nanoseconds.
abbrev pub rto : ℕ
rto = 200 * 1_000_000

abbrev pub max_retries : ℕ
max_retries = 10

pub record SendSlot : Type 0 where
  pub seq : ℕ
  pub data_ : List ℕ
  pub sent_at : ℕ
  pub retries : ℕ
  pub acked : Bool

pub record ReliableSender : Type 0 where
  pub conn_id : ℕ
  pub stream_id : ℕ
  pub next_seq : ℕ
  pub window_base : ℕ
  pub slots : List SendSlot

unfoldable pub new : ℕ → ℕ → ReliableSender
new conn_id stream_id = record {
  conn_id = conn_id;
  stream_id = stream_id;
  next_seq = 0;
  window_base = 0;
  slots = [];
}

abbrev pub data_header : (w : Wire) → ℕ → ℕ → ℕ → List ℕ → PacketHeader w.Flags
data_header w conn_id stream_id seq payload = record {
  conn_id = conn_id;
  pkt_type = PacketType.data_;
  flags = w.reliable;
  stream_id = stream_id;
  seq = seq;
  ack_seq = 0;
  ack_bitmap = 0;
  payload_len = length payload % u16_mod;
  nonce = replicate 12 0;
}

unfoldable pub encode_packet : Wire → ℕ → ℕ → ℕ → List ℕ → List ℕ
encode_packet w conn_id stream_id seq payload =
    w.put_slice payload (encode w (data_header w conn_id stream_id seq payload) [])

unfoldable pub send : Wire → ReliableSender → List ℕ → ℕ → ReliableSender × Option (List ℕ)
send w s payload now =
    if leb window_size (wrapping_sub_u32 s.next_seq s.window_base) then (s, none) else (
      record s {
        next_seq = wrapping_add_u32 s.next_seq 1;
        slots =
            s.slots
            ++ (record {
              seq = s.next_seq;
              data_ = payload;
              sent_at = now;
              retries = 0;
              acked = false;
            }
                ∷ []);
      },
      some (encode_packet w s.conn_id s.stream_id s.next_seq payload),
    )

-- Whether the ACK names the sequence number: the two tests of the loop of `on_ack`.
unfoldable pub is_covered : ℕ → ℕ → ℕ → Bool
is_covered ack_seq ack_bitmap seq =
    let dist = wrapping_sub_u32 seq ack_seq in
    dist == 0
    || (leb dist window_size
        && not (bit_and ack_bitmap (Option.get_or (checked_shl_one (dist - 1)) 0) == 0))

-- The loop of `on_ack` over the slots: the slots after it, and the list `acked`.
unfoldable pub mark_acked : ℕ → ℕ → List SendSlot → List SendSlot × List ℕ
mark_acked ack_seq ack_bitmap [] = ([], [])
mark_acked ack_seq ack_bitmap (slot ∷ slots) =
    let (rest, acked) = mark_acked ack_seq ack_bitmap slots in
    if slot.acked
    then (slot ∷ rest, acked)
    else if is_covered ack_seq ack_bitmap slot.seq
    then (record slot { acked = true } ∷ rest, slot.seq ∷ acked)
    else (slot ∷ rest, acked)

-- `while self.slots.front().map_or(false, |s| s.acked)`.
unfoldable pub slide : ℕ → List SendSlot → ℕ × List SendSlot
slide base [] = (base, [])
slide base (slot ∷ slots) =
    let rest = slide (wrapping_add_u32 base 1) slots in
    if slot.acked then rest else (base, slot ∷ slots)

unfoldable pub on_ack : ReliableSender → ℕ → ℕ → ReliableSender × List ℕ
on_ack s ack_seq ack_bitmap =
    let (marked, acked) = mark_acked ack_seq ack_bitmap s.slots in
    let (base, slots) = slide s.window_base marked in
    (record s { window_base = base; slots = slots }, acked)

-- The loop of `poll_retransmit`: the slots after it, and the sequence numbers and payloads to send.
unfoldable pub retransmit : ℕ → List SendSlot → List SendSlot × List (ℕ × List ℕ)
retransmit now [] = ([], [])
retransmit now (slot ∷ slots) =
    let (rest, retrans) = retransmit now slots in
    if slot.acked || leb max_retries slot.retries
    then (slot ∷ rest, retrans)
    else if leb rto (now - slot.sent_at)
    then (
      record slot { retries = slot.retries + 1; sent_at = now } ∷ rest,
      (slot.seq, slot.data_) ∷ retrans,
    )
    else (slot ∷ rest, retrans)

-- Each is returned with the connection and the stream.
unfoldable pub tag : ℕ → ℕ → List (ℕ × List ℕ) → List (ℕ × ℕ × ℕ × List ℕ)
tag conn_id stream_id = map λ r. (conn_id, stream_id, r.0, r.1)

unfoldable pub poll_retransmit : ReliableSender → ℕ → ReliableSender × List (ℕ × ℕ × ℕ × List ℕ)
poll_retransmit s now =
    let (slots, retrans) = retransmit now s.slots in
    (record s { slots = slots }, tag s.conn_id s.stream_id retrans)
