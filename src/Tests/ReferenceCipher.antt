-- ===== src/Tests/ReferenceCipher.antt =====
-- A value of `Cipher` and one of `Codec`: plain functions that meet what is asked of the crates.

use mathlib.Core.Option.{some-injective}
use lan_link.Prelude.{
  ℕ, ◌-◌, ◌≡◌, refl, ap, sym, ◌∙◌, List, ◌++◌, length, length-append, take, take-append, replicate,
  Option, none, some, ltb, if◌then◌else◌, arith,
}
use lan_link.Crypto.{Cipher}
use lan_link.Channel.Codec.{Codec}

abbrev pub tag : List ℕ
tag = replicate 16 7

unfoldable pub open_ : List ℕ → Option (List ℕ)
open_ text = if ltb (length text) 16 then none else some (take (length text - 16) text)

pub open-append : (plain : List ℕ) → open_ (plain ++ tag) ≡ some plain
unfolding open_
open-append plain =
    let size : length (plain ++ tag) - 16 ≡ length plain = omega (arith, length-append plain tag) in
    ground (
      arith,
      length-append plain tag,
      ap (λ n. take n (plain ++ tag)) size ∙ take-append plain tag (length plain) refl,
    )

unfoldable pub cipher : Cipher
cipher = record {
  encrypt = λ key nonce plain. some (plain ++ tag);
  decrypt = λ key nonce text. open_ text;
  decrypt-encrypt = λ key nonce plain text e.
      ap open_ (sym (some-injective (plain ++ tag) text e)) ∙ open-append plain;
  length-encrypt = λ key nonce plain text e.
      ap length (sym (some-injective (plain ++ tag) text e)) ∙ length-append plain tag;
}

unfoldable pub codec : Codec
codec = record {
  Msg = List ℕ;
  serialize = λ msg. msg;
  deserialize = λ bytes. some bytes;
  deserialize-serialize = λ msg. refl;
}
