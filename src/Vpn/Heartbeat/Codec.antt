-- ===== src/Vpn/Heartbeat/Codec.antt =====
-- A heartbeat message on the wire (crates/vpn/src/vpn/heartbeat.rs).

use lan_link.Prelude.{
  ℕ, ◌^◌, ◌<◌, ◌≤◌, ◌≡◌, refl, ap, sym, ◌∙◌, List, ◌∷◌, ◌++◌, length, drop, take-append,
  drop-append, drop-drop, length-append, append_assoc, some, arith,
}
use lan_link.Prelude.Bytes.{be_bytes, from_be, length-be_bytes, from_be-be_bytes}
use lan_link.Vpn.Heartbeat.{
  HeartbeatMsgType, HeartbeatMessage, from_u8, to_u8, to_bytes, from_bytes,
}

from_u8-to_u8 : (t : HeartbeatMsgType) → from_u8 (to_u8 t) ≡ some t
unfolding from_u8 to_u8
from_u8-to_u8 HeartbeatMsgType.request = refl
from_u8-to_u8 HeartbeatMsgType.response = refl

-- The parts of a message are found at their places.
from_bytes-parts :
    (t : HeartbeatMsgType) (id ts sq rest : List ℕ)
    → length id ≡ 32
    → length ts ≡ 8
    → length sq ≡ 8
    → from_bytes (to_u8 t ∷ (id ++ (ts ++ (sq ++ rest))))
      ≡ some
          (record { msg_type = t; sender_id = id; timestamp = from_be ts; sequence = from_be sq })
unfolding from_bytes
from_bytes-parts t id ts sq rest h g k =
    let bytes = id ++ (ts ++ (sq ++ rest)) in
    let second : drop 32 bytes ≡ ts ++ (sq ++ rest) = drop-append id (ts ++ (sq ++ rest)) 32 h in
    let third : drop 40 bytes ≡ sq ++ rest =
      sym (drop-drop 8 32 bytes) ∙ ap (drop 8) second ∙ drop-append ts (sq ++ rest) 8 g in
    let size : 48 ≤ length bytes = omega (
      arith,
      length-append id (ts ++ (sq ++ rest)),
      length-append ts (sq ++ rest),
      length-append sq rest,
    ) in
    rw
      (
        from_bytes,
        take-append id (ts ++ (sq ++ rest)) 32 h,
        second,
        take-append ts (sq ++ rest) 8 g,
        third,
        take-append sq rest 8 k,
        from_u8-to_u8 t,
      )
      (ground (arith, size))

-- A message is read back from its bytes, whatever follows them.
pub from_bytes-to_bytes :
    (m : HeartbeatMessage) (rest : List ℕ)
    → length m.sender_id ≡ 32
    → m.timestamp < 2 ^ 64
    → m.sequence < 2 ^ 64
    → from_bytes (to_bytes m ++ rest) ≡ some m
unfolding to_bytes
from_bytes-to_bytes m rest h g k =
    let ts = be_bytes 8 m.timestamp in
    let sq = be_bytes 8 m.sequence in
    ap (λ bytes. from_bytes (to_u8 m.msg_type ∷ bytes))
      (append_assoc m.sender_id (ts ++ sq) rest
        ∙ ap (λ r. m.sender_id ++ r) (append_assoc ts sq rest))
    ∙ from_bytes-parts m.msg_type m.sender_id ts sq rest h (length-be_bytes 8 m.timestamp)
        (length-be_bytes 8 m.sequence)
    ∙ rw (from_be-be_bytes 8 m.timestamp g, from_be-be_bytes 8 m.sequence k) refl
