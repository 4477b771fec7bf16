-- ===== src/Reliable/Sender/Packets.antt =====
-- What `ReliableSender::send` puts on the wire (crates/protocol/src/reliable.rs).
use mathlib.Core.Option
use lan_link.Prelude.{
  length-append, ℕ, ◌+◌, ◌^◌, ◌<◌, ◌≡◌, refl, ap, ◌∙◌, List, [], ◌∷◌, length, none, some, arith,
}
use lan_link.Frame.Wire.{Wire}
use lan_link.Frame.Header.{IsValid, encode, decode}
use lan_link.Frame.RoundTrip.{decode-encode}
use lan_link.Reliable.Sender.{ReliableSender, data_header, encode_packet, send}
use lan_link.Reliable.Sender.Window.{Inv, fresh_slot, wrapping_sub-length, Consecutive-next}

module _ (w : Wire) where
  data_header-IsValid :
      (conn_id stream_id seq : ℕ) (payload : List ℕ)
      → conn_id < 2 ^ 64
      → stream_id < 2 ^ 16
      → seq < 2 ^ 32
      → IsValid (data_header w conn_id stream_id seq payload)
  data_header-IsValid conn_id stream_id seq payload h₁ h₂ h₃ = record {
    conn_id_u64 = h₁;
    stream_id_u16 = h₂;
    seq_u32 = h₃;
    ack_seq_u32 = omega arith;
    ack_bitmap_u32 = omega arith;
    payload_len_u16 = omega arith;
    nonce_12 = refl;
  }

  pub decode-encode_packet :
      (conn_id stream_id seq : ℕ) (payload : List ℕ)
      → conn_id < 2 ^ 64
      → stream_id < 2 ^ 16
      → seq < 2 ^ 32
      → decode w (encode_packet w conn_id stream_id seq payload)
        ≡ (some (data_header w conn_id stream_id seq payload), payload)
  unfolding encode_packet
  decode-encode_packet conn_id stream_id seq payload h₁ h₂ h₃ =
      let h = data_header w conn_id stream_id seq payload in
      ap (decode w) (w.put-slice payload (encode w h []))
      ∙ decode-encode w h payload (data_header-IsValid conn_id stream_id seq payload h₁ h₂ h₃)

  next_seq_u32 : (s : ReliableSender) → Inv s → s.next_seq < 2 ^ 32
  next_seq_u32 s v =
      omega (arith, Consecutive-next s.window_base s.next_seq s.slots v.base_u32 v.consecutive)

  -- `send` refuses and changes nothing while 32 packets are in the window.
  pub send-full :
      (s : ReliableSender) (payload : List ℕ) (now : ℕ)
      → Inv s
      → length s.slots ≡ 32
      → send w s payload now ≡ (s, none)
  unfolding send
  send-full s payload now v full = ground (arith, wrapping_sub-length s v)

  -- While there are fewer than 32 packets in the window, `send` returns a packet that decodes to the
  -- data header with the next sequence number and the payload behind it, the length in the header is
  -- the payload's, which fits 16 bits, and the window holds one packet more.
  pub send_lem :
      (s : ReliableSender) (payload : List ℕ) (now : ℕ)
      → Inv s
      → s.conn_id < 2 ^ 64
      → s.stream_id < 2 ^ 16
      → length payload < 2 ^ 16
      → length s.slots < 32
      → (Option.map (decode w) (send w s payload now).1
          ≡ some (some (data_header w s.conn_id s.stream_id s.next_seq payload), payload))
        × ((data_header w s.conn_id s.stream_id s.next_seq payload).payload_len ≡ length payload)
        × (length (send w s payload now).0.slots ≡ length s.slots + 1)
  unfolding send
  send_lem s payload now v h₁ h₂ h₃ free = ground (
    arith,
    wrapping_sub-length s v,
    decode-encode_packet s.conn_id s.stream_id s.next_seq payload h₁ h₂ (next_seq_u32 s v),
    length-append s.slots (fresh_slot s payload now ∷ []),
  )
