-- ===== src/Channel/Server.antt =====
-- The control messages that the daemon sends (crates/daemon/src/main.rs). `send_control` gives the
-- packet that it sends, if it sends one.
use mathlib.Core.Option
use lan_link.Prelude.{ℕ, ◌%◌, List, [], ◌++◌, length, Option, none, some}
use lan_link.Prelude.Words.{u16_mod, u32_mod}
use lan_link.Frame.Wire.{Wire}
use lan_link.Frame.Types.{PacketType}
use lan_link.Frame.Header.{PacketHeader, encode}
use lan_link.Crypto.{Cipher, make_nonce}
use lan_link.Daemon.Packets.{build_encrypted_data}
use lan_link.Channel.Codec.{Codec}

module _ (w : Wire) (cipher : Cipher) (codec : Codec) (psk : List ℕ) where
  unfoldable pub send_control : ℕ → ℕ → codec.Msg → Option (List ℕ)
  send_control conn_id seq msg =
      let seq32 = seq % u32_mod in
      let nonce = make_nonce conn_id seq32 in
      Option.map (λ encrypted. build_encrypted_data w conn_id 0 seq32 w.reliable encrypted nonce)
        (cipher.encrypt psk nonce (codec.serialize msg))

  unfoldable pub build_control_packet_tcp : ℕ → ℕ → codec.Msg → List ℕ
  build_control_packet_tcp conn_id seq msg =
      let seq32 = seq % u32_mod in
      let nonce = make_nonce conn_id seq32 in
      elim (cipher.encrypt psk nonce (codec.serialize msg)) [
        | none ↦ []
        | some encrypted ↦
            let header : PacketHeader w.Flags = record {
              conn_id = conn_id;
              pkt_type = PacketType.data_;
              flags = w.reliable;
              stream_id = 0;
              seq = seq32;
              ack_seq = 0;
              ack_bitmap = 0;
              payload_len = length encrypted % u16_mod;
              nonce = nonce;
            } in
            encode w header [] ++ encrypted
      ]
