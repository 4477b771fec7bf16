-- ===== src/Channel/Codec.antt =====
-- What the control channel takes from the crate `bincode`: the messages (`ControlMsg`) as bytes.
use lan_link.Prelude.{ℕ, ◌≡◌, List, Option, some}

pub record Codec : Type 1 where
  pub Msg : Type 0
  pub serialize : Msg → List ℕ
  pub deserialize : List ℕ → Option Msg
  pub deserialize-serialize : (msg : Msg) → deserialize (serialize msg) ≡ some msg
