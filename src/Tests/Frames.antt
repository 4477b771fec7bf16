-- ===== src/Tests/Frames.antt =====
-- The packet header of crates/protocol/src/frame.rs on concrete inputs.
use lan_link.Prelude.{
  ◌⊎◌, drop, ℕ, ◌<◌, ◌≡◌, refl, ◌↔◌, List, [], ◌∷◌, ◌++◌, length, replicate, none, some, arith,
}
use lan_link.Prelude.Bytes.{le_bytes, from_le}
use lan_link.Frame.Types.{PacketType, packet_type_code, packet_type_from_u8}
use lan_link.Frame.Header.{PacketHeader, IsValid, encode, decode, decode_rest}
use lan_link.Frame.RoundTrip.{decode-encode, length-encode, decode-none_iff, head_or}
use lan_link.Tests.ReferenceWire.{wire}

program : Unit {0}
unfolding wire encode decode decode_rest le_bytes from_le packet_type_code packet_type_from_u8
program = tt

abbrev syn : PacketHeader wire.Flags
syn = record {
  conn_id = 0x1122334455667788;
  pkt_type = PacketType.syn;
  flags = wire.reliable;
  stream_id = 5;
  seq = 0x01020304;
  ack_seq = 9;
  ack_bitmap = 0x80000000;
  payload_len = 3;
  nonce = replicate 12 7;
}

syn-IsValid : IsValid syn
syn-IsValid = record {
  conn_id_u64 = omega arith;
  stream_id_u16 = omega arith;
  seq_u32 = omega arith;
  ack_seq_u32 = omega arith;
  ack_bitmap_u32 = omega arith;
  payload_len_u16 = omega arith;
  nonce_12 = refl;
}

abbrev syn_bytes : List ℕ
syn_bytes =
    0x88
    ∷ 0x77
    ∷ 0x66
    ∷ 0x55
    ∷ 0x44
    ∷ 0x33
    ∷ 0x22
    ∷ 0x11
    ∷ 0
    ∷ 1
    ∷ 5
    ∷ 0
    ∷ 4
    ∷ 3
    ∷ 2
    ∷ 1
    ∷ 9
    ∷ 0
    ∷ 0
    ∷ 0
    ∷ 0
    ∷ 0
    ∷ 0
    ∷ 0x80
    ∷ 3
    ∷ 0
    ∷ replicate 12 7

syn_encoded : encode wire syn [] ≡ syn_bytes
unfolding program
syn_encoded = refl

decode-encode_example : decode wire (encode wire syn [] ++ 65 ∷ []) ≡ (some syn, 65 ∷ [])
decode-encode_example = decode-encode wire syn (65 ∷ []) syn-IsValid

length-encode_example : length (encode wire syn (1 ∷ [])) ≡ 39
length-encode_example = length-encode wire syn (1 ∷ []) syn-IsValid

abbrev bad_bytes : List ℕ
bad_bytes = replicate 8 1 ++ 6 ∷ replicate 29 0

decode-none_iff_example :
    (((decode wire bad_bytes).0 ≡ none)
      ↔ ((length bad_bytes < 38) ⊎ (5 < head_or 0 (drop 8 bad_bytes))))
    × (length bad_bytes < 38 → decode wire bad_bytes ≡ (none, bad_bytes))
decode-none_iff_example = decode-none_iff wire bad_bytes (omega arith)
