-- ===== src/Daemon/Packets.antt =====
-- `Connection` and the packets of crates/daemon/src/connection.rs.
use lan_link.Prelude.{
  ℕ, ◌%◌, ◌^◌, ◌<◌, ◌≡◌, refl, ap, ◌∙◌, List, [], length, replicate, Bool, true, false, ◌&&◌, some,
  ◌==◌, arith,
}
use lan_link.Prelude.Words.{u16_mod}
use lan_link.Frame.Wire.{Wire}
use lan_link.Frame.Types.{PacketType}
use lan_link.Frame.Header.{PacketHeader, IsValid, encode, decode}
use lan_link.Frame.RoundTrip.{decode-encode}
use lan_link.Mux.{StreamMux}
use lan_link.Mux

-- `SocketAddr`: the address as a number, and the port.
pub record SocketAddr : Type 0 where
  pub ip : ℕ
  pub port : ℕ

abbrev pub addr_eq : SocketAddr → SocketAddr → Bool
addr_eq a b = a.ip == b.ip && a.port == b.port

pub addr_eq_refl : (a : SocketAddr) → addr_eq a a ≡ true
addr_eq_refl a = ground arith

pub data ConnState : Type 0 where
  listening syn_sent established closed : ConnState

abbrev pub is_established : ConnState → Bool
is_established ConnState.listening = false
is_established ConnState.syn_sent = false
is_established ConnState.established = true
is_established ConnState.closed = false

pub record Connection : Type 0 where
  pub id : ℕ
  pub peer : SocketAddr
  pub state : ConnState
  pub mux : StreamMux
  pub created : ℕ
  pub last_activity : ℕ
  pub send_seq : ℕ

unfoldable pub new : ℕ → SocketAddr → ℕ → Connection
new id peer now = record {
  id = id;
  peer = peer;
  state = ConnState.listening;
  mux = Mux.new;
  created = now;
  last_activity = now;
  send_seq = 0;
}

module _ (w : Wire) where
  abbrev pub plain_header : PacketType → ℕ → PacketHeader w.Flags
  plain_header kind conn_id = record {
    conn_id = conn_id;
    pkt_type = kind;
    flags = w.no_flags;
    stream_id = 0;
    seq = 0;
    ack_seq = 0;
    ack_bitmap = 0;
    payload_len = 0;
    nonce = replicate 12 0;
  }

  unfoldable pub build_syn : ℕ → List ℕ
  build_syn conn_id = encode w (plain_header PacketType.syn conn_id) []

  unfoldable pub build_syn_ack : ℕ → List ℕ
  build_syn_ack conn_id = encode w (plain_header PacketType.syn_ack conn_id) []

  unfoldable pub build_heartbeat : ℕ → List ℕ
  build_heartbeat conn_id = encode w (plain_header PacketType.heartbeat conn_id) []

  abbrev pub data_header : ℕ → ℕ → ℕ → w.Flags → List ℕ → List ℕ → PacketHeader w.Flags
  data_header conn_id stream_id seq flags payload nonce = record {
    conn_id = conn_id;
    pkt_type = PacketType.data_;
    flags = flags;
    stream_id = stream_id;
    seq = seq;
    ack_seq = 0;
    ack_bitmap = 0;
    payload_len = length payload % u16_mod;
    nonce = nonce;
  }

  unfoldable pub build_data : ℕ → ℕ → ℕ → w.Flags → List ℕ → List ℕ
  build_data conn_id stream_id seq flags payload =
      w.put_slice payload
        (encode w (data_header conn_id stream_id seq flags payload (replicate 12 0)) [])

  unfoldable pub build_encrypted_data : ℕ → ℕ → ℕ → w.Flags → List ℕ → List ℕ → List ℕ
  build_encrypted_data conn_id stream_id seq flags ciphertext nonce =
      w.put_slice ciphertext
        (encode w (data_header conn_id stream_id seq flags ciphertext nonce) [])

  pub plain_header-IsValid :
      (kind : PacketType) (conn_id : ℕ) → conn_id < 2 ^ 64 → IsValid (plain_header kind conn_id)
  plain_header-IsValid kind conn_id h = record {
    conn_id_u64 = h;
    stream_id_u16 = omega arith;
    seq_u32 = omega arith;
    ack_seq_u32 = omega arith;
    ack_bitmap_u32 = omega arith;
    payload_len_u16 = omega arith;
    nonce_12 = refl;
  }

  pub data_header-IsValid :
      (conn_id stream_id seq : ℕ) (flags : w.Flags) (payload nonce : List ℕ)
      → conn_id < 2 ^ 64
      → stream_id < 2 ^ 16
      → seq < 2 ^ 32
      → length nonce ≡ 12
      → IsValid (data_header conn_id stream_id seq flags payload nonce)
  data_header-IsValid conn_id stream_id seq flags payload nonce h₁ h₂ h₃ h₄ = record {
    conn_id_u64 = h₁;
    stream_id_u16 = h₂;
    seq_u32 = h₃;
    ack_seq_u32 = omega arith;
    ack_bitmap_u32 = omega arith;
    payload_len_u16 = omega arith;
    nonce_12 = h₄;
  }

  pub decode-build_encrypted_data :
      (conn_id stream_id seq : ℕ) (flags : w.Flags) (ciphertext nonce : List ℕ)
      → conn_id < 2 ^ 64
      → stream_id < 2 ^ 16
      → seq < 2 ^ 32
      → length nonce ≡ 12
      → decode w (build_encrypted_data conn_id stream_id seq flags ciphertext nonce)
        ≡ (some (data_header conn_id stream_id seq flags ciphertext nonce), ciphertext)
  unfolding build_encrypted_data
  decode-build_encrypted_data conn_id stream_id seq flags ciphertext nonce h₁ h₂ h₃ h₄ =
      let h = data_header conn_id stream_id seq flags ciphertext nonce in
      ap (decode w) (w.put-slice ciphertext (encode w h []))
      ∙ decode-encode w h ciphertext
          (data_header-IsValid conn_id stream_id seq flags ciphertext nonce h₁ h₂ h₃ h₄)
