-- ===== src/Crypto.antt =====
-- crates/protocol/src/crypto.rs: the nonce of a packet, and what the protocol takes from the crate
-- `chacha20poly1305`. A key, a nonce and a text are lists of bytes.
use lan_link.Prelude.{
  ℕ, ◌+◌, ◌^◌, ◌<◌, ◌≡◌, ap, sym, ◌∙◌, List, ◌++◌, length, length-append, take, drop, take-append,
  drop-append, Option, some, arith,
}
use lan_link.Prelude.Bytes.{le_bytes, from_le, length-le_bytes, from_le-le_bytes}

-- `encrypt` and `decrypt`; an error of either is `none`. What was encrypted is decrypted under the
-- same key and nonce, and an encrypted text is 16 bytes longer.
pub record Cipher : Type 0 where
  pub encrypt : List ℕ → List ℕ → List ℕ → Option (List ℕ)
  pub decrypt : List ℕ → List ℕ → List ℕ → Option (List ℕ)
  pub decrypt-encrypt :
      (key nonce plain cipher : List ℕ)
      → encrypt key nonce plain ≡ some cipher
      → decrypt key nonce cipher ≡ some plain
  pub length-encrypt :
      (key nonce plain cipher : List ℕ)
      → encrypt key nonce plain ≡ some cipher
      → length cipher ≡ length plain + 16

unfoldable pub make_nonce : ℕ → ℕ → List ℕ
make_nonce conn_id seq = le_bytes 8 conn_id ++ le_bytes 4 seq

pub length-make_nonce : (conn_id seq : ℕ) → length (make_nonce conn_id seq) ≡ 12
unfolding make_nonce
length-make_nonce conn_id seq =
    length-append (le_bytes 8 conn_id) (le_bytes 4 seq)
    ∙ omega (arith, length-le_bytes 8 conn_id, length-le_bytes 4 seq)

read_nonce :
    (conn_id seq : ℕ)
    → conn_id < 2 ^ 64
    → seq < 2 ^ 32
    → (from_le (take 8 (make_nonce conn_id seq)) ≡ conn_id)
      × (from_le (drop 8 (make_nonce conn_id seq)) ≡ seq)
unfolding make_nonce
read_nonce conn_id seq h g = (
  ap from_le (take-append (le_bytes 8 conn_id) (le_bytes 4 seq) 8 (length-le_bytes 8 conn_id))
      ∙ from_le-le_bytes 8 conn_id h,
  ap from_le (drop-append (le_bytes 8 conn_id) (le_bytes 4 seq) 8 (length-le_bytes 8 conn_id))
      ∙ from_le-le_bytes 4 seq g,
)

-- Two pairs of a connection and a sequence number with the same nonce are the same pair.
pub make_nonce-injective :
    (c d s t : ℕ)
    → c < 2 ^ 64
    → d < 2 ^ 64
    → s < 2 ^ 32
    → t < 2 ^ 32
    → make_nonce c s ≡ make_nonce d t
    → (c ≡ d) × (s ≡ t)
make_nonce-injective c d s t h₁ h₂ h₃ h₄ e = (
  sym (read_nonce c s h₁ h₃).0 ∙ ap (λ n. from_le (take 8 n)) e ∙ (read_nonce d t h₂ h₄).0,
  sym (read_nonce c s h₁ h₃).1 ∙ ap (λ n. from_le (drop 8 n)) e ∙ (read_nonce d t h₂ h₄).1,
)
