-- ===== src/Vpn/Relay/Framing.antt =====
-- Messages are read back from the bytes that were written (crates/vpn/src/vpn/relay.rs).

use lan_link.Prelude.{
  ℕ, zero, suc, ◌+◌, ◌%◌, ◌^◌, ◌≤◌, ◌<◌, ◌≡◌, refl, ap, sym, ◌∙◌, List, [], ◌∷◌, ◌++◌, length, drop,
  take-append, drop-append, drop-drop, length-append, append_assoc, All, some, arith,
}
use lan_link.Prelude.Words.{u32_mod}
use lan_link.Prelude.Bytes.{be_bytes, from_be, length-be_bytes, from_be-be_bytes}
use lan_link.Prelude.Result.{ok}
use lan_link.Vpn.Relay.{
  MessageType, from_u8, to_u8, Message, to_bytes, from_bytes, from_parts, byte_at, with_type,
  max_message, read_body, read_message, read_all, handle_connection,
}

from_u8-to_u8 : (t : MessageType) → from_u8 (to_u8 t) ≡ some t
unfolding from_u8 to_u8
from_u8-to_u8 MessageType.handshake = refl
from_u8-to_u8 MessageType.data_ = refl
from_u8-to_u8 MessageType.ack = refl
from_u8-to_u8 MessageType.heartbeat = refl
from_u8-to_u8 MessageType.relay = refl
from_u8-to_u8 MessageType.registry = refl
from_u8-to_u8 MessageType.dht = refl
from_u8-to_u8 MessageType.route = refl
from_u8-to_u8 MessageType.self_heal = refl

read_body-frame :
    (p rest : List ℕ) (t : MessageType)
    → length p ≤ max_message
    → read_body (length p) (to_u8 t ∷ (p ++ rest)) ≡ ok (some (with_type t p, rest))
unfolding read_body
read_body-frame p rest t small =
    rw
      (
        read_body,
        from_u8-to_u8 t,
        take-append p rest (length p) refl,
        drop-append p rest (length p) refl,
      )
      (ground (arith, length-append p rest))

-- A frame of a length, a type and a payload.
read_message-frame :
    (bs p rest : List ℕ) (t : MessageType)
    → length bs ≡ 4
    → from_be bs ≡ length p
    → length p ≤ max_message
    → read_message (bs ++ (to_u8 t ∷ (p ++ rest))) ≡ ok (some (with_type t p, rest))
unfolding read_message
read_message-frame bs p rest t four n small =
    let body = to_u8 t ∷ (p ++ rest) in
    rw
      (
        read_message,
        take-append bs body 4 four,
        drop-append bs body 4 four,
        n,
        read_body-frame p rest t small,
      )
      (ground (arith, length-append bs body))

frame_assoc :
    (m : Message) (rest : List ℕ)
    → to_bytes m ++ rest
      ≡ be_bytes 4 (length m.payload % u32_mod) ++ (to_u8 m.msg_type ∷ (m.payload ++ rest))
unfolding to_bytes
frame_assoc m rest =
    append_assoc (be_bytes 4 (length m.payload % u32_mod)) (to_u8 m.msg_type ∷ m.payload) rest

length_read :
    (m : Message)
    → length m.payload < 2 ^ 32
    → from_be (be_bytes 4 (length m.payload % u32_mod)) ≡ length m.payload
length_read m h = from_be-be_bytes 4 (length m.payload % u32_mod) (omega arith) ∙ omega arith

read_message-to_bytes :
    (m : Message) (rest : List ℕ)
    → length m.payload ≤ max_message
    → read_message (to_bytes m ++ rest) ≡ ok (some (m, rest))
unfolding with_type
read_message-to_bytes m rest small =
    ap read_message (frame_assoc m rest)
    ∙ read_message-frame (be_bytes 4 (length m.payload % u32_mod)) m.payload rest m.msg_type
        (length-be_bytes 4 (length m.payload % u32_mod)) (length_read m (omega arith)) small

-- The bytes of several messages.
unfoldable pub written : List Message → List ℕ
written [] = []
written (m ∷ ms) = to_bytes m ++ written ms

length-to_bytes : (m : Message) → length (to_bytes m) ≡ 5 + length m.payload
unfolding to_bytes
length-to_bytes m = omega (
  arith,
  length-append (be_bytes 4 (length m.payload % u32_mod)) (to_u8 m.msg_type ∷ m.payload),
  length-be_bytes 4 (length m.payload % u32_mod),
)

read_all-end : (fuel : ℕ) → read_all fuel [] ≡ []
unfolding read_all read_message
read_all-end zero = refl
read_all-end (suc fuel) = refl

read_all-written :
    (fuel : ℕ) (ms : List Message)
    → length (written ms) ≤ fuel
    → All (λ m. length m.payload ≤ max_message) ms
    → read_all fuel (written ms) ≡ ms
unfolding written read_all
read_all-written fuel [] enough small = read_all-end fuel
read_all-written zero (m ∷ ms) enough small =
    absurd (omega (arith, length-append (to_bytes m) (written ms), length-to_bytes m))
read_all-written (suc fuel) (m ∷ ms) enough small =
    rw (read_all, read_message-to_bytes m (written ms) small.0)
      (ap (◌∷◌ m) (
        read_all-written fuel ms
          (omega (arith, length-append (to_bytes m) (written ms), length-to_bytes m)) small.1))

-- A connection over which messages of at most 1 MB each are written one after the other is read as
-- exactly these messages, in order.
pub handle_connection-written :
    (ms : List Message)
    → All (λ m. length m.payload ≤ max_message) ms
    → handle_connection (written ms) ≡ ms
unfolding handle_connection
handle_connection-written ms small = read_all-written (length (written ms)) ms (omega arith) small

byte_at-append : (bs rest : List ℕ) (b n : ℕ) → length bs ≡ n → byte_at n (bs ++ (b ∷ rest)) ≡ b
byte_at-append [] rest b zero h = refl
byte_at-append [] rest b (suc n) h = absurd (omega arith)
byte_at-append (x ∷ bs) rest b zero h = absurd (omega arith)
byte_at-append (x ∷ bs) rest b (suc n) h = byte_at-append bs rest b n (omega arith)

from_parts-frame :
    (p rest bytes : List ℕ) (t : MessageType)
    → drop 5 bytes ≡ p ++ rest
    → length bytes ≡ 5 + length p + length rest
    → from_parts (length p) (to_u8 t) bytes ≡ ok (with_type t p)
unfolding from_parts
from_parts-frame p rest bytes t e size =
    rw (from_parts, from_u8-to_u8 t, e, take-append p rest (length p) refl) (ground (arith, size))

from_bytes-frame :
    (bs p rest : List ℕ) (t : MessageType)
    → length bs ≡ 4
    → from_be bs ≡ length p
    → from_bytes (bs ++ (to_u8 t ∷ (p ++ rest))) ≡ ok (with_type t p)
unfolding from_bytes
from_bytes-frame bs p rest t four n =
    let body = to_u8 t ∷ (p ++ rest) in
    let size = length-append bs body in
    let more = length-append p rest in
    let tail : drop 5 (bs ++ body) ≡ p ++ rest =
      sym (drop-drop 1 4 (bs ++ body)) ∙ ap (drop 1) (drop-append bs body 4 four) in
    rw
      (
        from_bytes,
        take-append bs body 4 four,
        n,
        byte_at-append bs (p ++ rest) (to_u8 t) 4 four,
        from_parts-frame p rest (bs ++ body) t tail (omega (arith, size, more)),
      )
      (ground (arith, size))

-- A message whose length fits a u32 is read back from its bytes, whatever follows them.
pub from_bytes-to_bytes_append :
    (m : Message) (rest : List ℕ)
    → length m.payload < 2 ^ 32
    → from_bytes (to_bytes m ++ rest) ≡ ok m
unfolding with_type
from_bytes-to_bytes_append m rest h =
    ap from_bytes (frame_assoc m rest)
    ∙ from_bytes-frame (be_bytes 4 (length m.payload % u32_mod)) m.payload rest m.msg_type
        (length-be_bytes 4 (length m.payload % u32_mod)) (length_read m h)
