-- ===== src/Vpn/Relay.antt =====
-- The messages of crates/vpn/src/vpn/relay.rs and their frames. A stream is the list of the bytes that
-- arrive until it ends; the texts of the errors are left out.
pub mod Framing
pub mod Pool
pub mod Manager
use mathlib.Core.Option
use lan_link.Prelude.{
  ℕ, zero, suc, ◌+◌, ◌*◌, ◌%◌, List, [], ◌∷◌, ◌++◌, length, take, drop, Option, none, some, ltb,
  ◌==◌, if◌then◌else◌,
}
use lan_link.Prelude.Words.{u32_mod}
use lan_link.Prelude.Bytes.{be_bytes, from_be}
use lan_link.Prelude.Result.{Result, ok, err}

pub data MessageType : Type 0 where
  handshake data_ ack heartbeat relay registry dht route self_heal : MessageType

unfoldable pub from_u8 : ℕ → Option MessageType
from_u8 b =
    if b == 1
    then some MessageType.handshake
    else if b == 2
    then some MessageType.data_
    else if b == 3
    then some MessageType.ack
    else if b == 4
    then some MessageType.heartbeat
    else if b == 5
    then some MessageType.relay
    else if b == 6
    then some MessageType.registry
    else if b == 7
    then some MessageType.dht
    else if b == 8
    then some MessageType.route
    else if b == 9
    then some MessageType.self_heal
    else none

unfoldable pub to_u8 : MessageType → ℕ
to_u8 MessageType.handshake = 1
to_u8 MessageType.data_ = 2
to_u8 MessageType.ack = 3
to_u8 MessageType.heartbeat = 4
to_u8 MessageType.relay = 5
to_u8 MessageType.registry = 6
to_u8 MessageType.dht = 7
to_u8 MessageType.route = 8
to_u8 MessageType.self_heal = 9

pub data RelayError : Type 0 where
  io_error connection_error parse_error pool_full unreachable timed_out : RelayError

pub record Message : Type 0 where
  pub msg_type : MessageType
  pub payload : List ℕ

unfoldable pub to_bytes : Message → List ℕ
to_bytes m = be_bytes 4 (length m.payload % u32_mod) ++ (to_u8 m.msg_type ∷ m.payload)

-- The byte at a place that the length allows.
abbrev pub byte_at : ℕ → List ℕ → ℕ
byte_at i [] = 0
byte_at zero (b ∷ bs) = b
byte_at (suc i) (b ∷ bs) = byte_at i bs

unfoldable pub with_type : MessageType → List ℕ → Message
with_type t payload = record { msg_type = t; payload = payload }

-- What follows the length and the type.
unfoldable pub from_parts : ℕ → ℕ → List ℕ → Result RelayError Message
from_parts len code bytes = elim (from_u8 code) [
  | none ↦ err RelayError.parse_error
  | some t ↦
      if ltb (length bytes) (5 + len)
      then err RelayError.parse_error
      else ok (with_type t (take len (drop 5 bytes)))
]

unfoldable pub from_bytes : List ℕ → Result RelayError Message
from_bytes bytes =
    if ltb (length bytes) 5
    then err RelayError.parse_error
    else from_parts (from_be (take 4 bytes)) (byte_at 4 bytes) bytes

-- The limit of a message that is read from a stream.
abbrev pub max_message : ℕ
max_message = 1024 * 1024

-- What follows the length, with what is left of the stream.
unfoldable pub read_body : ℕ → List ℕ → Result RelayError (Option (Message × List ℕ))
read_body len rest =
    if ltb max_message len
    then err RelayError.parse_error
    else if ltb (length rest) (1 + len)
    then err RelayError.io_error
    else elim (from_u8 (byte_at 0 rest)) [
      | none ↦ err RelayError.parse_error
      | some t ↦ ok (some (with_type t (take len (drop 1 rest)), drop len (drop 1 rest)))
    ]

-- `none` where the stream ends before a message.
unfoldable pub read_message : List ℕ → Result RelayError (Option (Message × List ℕ))
read_message stream =
    if ltb (length stream) 4 then ok none else read_body (from_be (take 4 stream)) (drop 4 stream)

-- The loop of `handle_connection`, at most `fuel` times: the messages that it keeps.
unfoldable pub read_all : ℕ → List ℕ → List Message
read_all zero stream = []
read_all (suc fuel) stream = elim (read_message stream) [
  | err _ ↦ []
  | ok o ↦ elim o [ none ↦ [] | some (m, rest) ↦ m ∷ read_all fuel rest ]
]

-- Each message takes at least five bytes, so the length of the stream is enough fuel.
unfoldable pub handle_connection : List ℕ → List Message
handle_connection stream = read_all (length stream) stream
