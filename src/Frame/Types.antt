-- ===== src/Frame/Types.antt =====
-- The enumerations and constants of crates/protocol/src/frame.rs.
use lan_link.Prelude.{
  ℕ, ◌+◌, ◌<◌, ◌≡◌, refl, ◌↔◌, Bool, true, false, Option, none, some, arith, ◌==◌, if◌then◌else◌,
}

abbrev pub header_size : ℕ
header_size = 38

abbrev pub max_payload : ℕ
max_payload = 1400

abbrev pub max_packet : ℕ
max_packet = header_size + max_payload + 16

pub data PacketType : Type 0 where
  syn syn_ack ack data_ rst heartbeat : PacketType

-- The discriminant, `pkt_type as u8`.
unfoldable pub packet_type_code : PacketType → ℕ
packet_type_code PacketType.syn = 0
packet_type_code PacketType.syn_ack = 1
packet_type_code PacketType.ack = 2
packet_type_code PacketType.data_ = 3
packet_type_code PacketType.rst = 4
packet_type_code PacketType.heartbeat = 5

unfoldable pub packet_type_from_u8 : ℕ → Option PacketType
packet_type_from_u8 v =
    if v == 0
    then some PacketType.syn
    else if v == 1
    then some PacketType.syn_ack
    else if v == 2
    then some PacketType.ack
    else if v == 3
    then some PacketType.data_
    else if v == 4
    then some PacketType.rst
    else if v == 5
    then some PacketType.heartbeat
    else none

pub data StreamId : Type 0 where
  control video audio_tx audio_rx input file : StreamId

unfoldable pub stream_id_from_u16 : ℕ → Option StreamId
stream_id_from_u16 v =
    if v == 0
    then some StreamId.control
    else if v == 1
    then some StreamId.video
    else if v == 2
    then some StreamId.audio_tx
    else if v == 3
    then some StreamId.audio_rx
    else if v == 4
    then some StreamId.input
    else if v == 5
    then some StreamId.file
    else none

unfoldable pub is_reliable : StreamId → Bool
is_reliable StreamId.control = true
is_reliable StreamId.video = false
is_reliable StreamId.audio_tx = false
is_reliable StreamId.audio_rx = false
is_reliable StreamId.input = true
is_reliable StreamId.file = true

pub from_u8-code : (t : PacketType) → packet_type_from_u8 (packet_type_code t) ≡ some t
unfolding packet_type_from_u8 packet_type_code
from_u8-code PacketType.syn = refl
from_u8-code _ = refl

pub code_of_from_u8 :
    (v : ℕ) (t : PacketType) → packet_type_from_u8 v ≡ some t → packet_type_code t ≡ v
unfolding packet_type_from_u8 packet_type_code
code_of_from_u8 v t h = ground arith

pub packet_type_code-lt : (t : PacketType) → packet_type_code t < 256
unfolding packet_type_code
packet_type_code-lt PacketType.syn = omega arith
packet_type_code-lt _ = omega arith

-- Exactly the six codes are read.
pub from_u8-none_iff : (v : ℕ) → (packet_type_from_u8 v ≡ none) ↔ (5 < v)
unfolding packet_type_from_u8
from_u8-none_iff v = ground arith
