-- ===== src/Vpn/Dht/Messages/Storing.antt =====
-- A value that is put by a message can be read by a message (crates/vpn/src/vpn/dht.rs).
use lan_link.Prelude.{
  ℕ, ◌+◌, ◌%◌, ◌<◌, ◌≡◌, refl, ap, sym, subst, ◌∙◌, List, [], ◌∷◌, ◌++◌, length, length-append,
  take, take_all, take-append, drop, drop-append, drop-drop, Bool, true, false, not, Option, none,
  some, ltb, leb, if◌then◌else◌, arith,
}
use lan_link.Prelude.Words.{u16_mod, u32_mod, u64_mod}
use lan_link.Prelude.Bytes.{be_bytes, from_be, length-be_bytes, from_be-be_bytes, bytes_eq}
use lan_link.Prelude.Assoc.{lookup-insert_self}
use lan_link.Vpn.Identity.{NodeId}
use lan_link.Vpn.Relay.{Message, MessageType}
use lan_link.Vpn.Dht.Manager.{DhtManager, ValueEntry, put_value, get_value_by_hash, is_expired}
use lan_link.Vpn.Dht.Messages.{
  DhtMessageType, handle_put, on_get, on_type, process_message, from_u8, to_u8, create_dht_message,
}

if_false {ℓ} : {A : Type ℓ} (b : Bool) (x y : A) → b ≡ false → (if b then x else y) ≡ y
if_false b x y e = rw e refl

module _ (sha256 : List ℕ → List ℕ) where
  handle_put_parts :
      (m : DhtManager) (bytes : List ℕ) (secs a b ttl : ℕ) (key value : List ℕ)
      → from_be (take 2 bytes) ≡ a
      → from_be (take 4 (drop (2 + a) bytes)) ≡ b
      → take b (drop (2 + a + 4) bytes) ≡ value
      → from_be (take 8 (drop (2 + a + 4 + b) bytes)) ≡ ttl
      → take a (drop 2 bytes) ≡ key
      → length bytes ≡ 2 + a + 4 + b + 8
      → handle_put sha256 m bytes secs ≡ (put_value sha256 m key value ttl secs).0
  unfolding handle_put
  handle_put_parts m bytes secs a b ttl key value h₁ h₂ h₃ h₄ h₅ size =
      rw (h₁, h₂, h₃, h₄, h₅)
        (if_false (ltb (length bytes) 2) _ _ (ground (arith, size))
          ∙ if_false (ltb (length bytes) (2 + a + 4)) _ _ (ground (arith, size))
          ∙ if_false (ltb (length bytes) (2 + a + 4 + b + 8)) _ _ (ground (arith, size)))

  -- What a PUT message carries.
  abbrev pub put_bytes : List ℕ → List ℕ → ℕ → List ℕ
  put_bytes key value ttl =
      be_bytes 2 (length key) ++ (key ++ (be_bytes 4 (length value) ++ (value ++ be_bytes 8 ttl)))

  handle_put-put_bytes :
      (m : DhtManager) (key value : List ℕ) (ttl secs : ℕ)
      → length key < u16_mod
      → length value < u32_mod
      → ttl < u64_mod
      → handle_put sha256 m (put_bytes key value ttl) secs
        ≡ (put_value sha256 m key value ttl secs).0
  unfolding handle_put
  handle_put-put_bytes m key value ttl secs hk hv ht =
      let kl = be_bytes 2 (length key) in
      let vl = be_bytes 4 (length value) in
      let t = be_bytes 8 ttl in
      let s₁ = length-be_bytes 2 (length key) in
      let s₂ = length-be_bytes 4 (length value) in
      let s₃ = length-be_bytes 8 ttl in
      let r₃ = value ++ t in
      let r₂ = vl ++ r₃ in
      let r₁ = key ++ r₂ in
      let bytes = kl ++ r₁ in
      let e₁ = take-append kl r₁ 2 s₁ in
      let e₂ = from_be-be_bytes 2 (length key) hk in
      let d₁ = drop-append kl r₁ 2 s₁ in
      let d₂ : drop (2 + length key) bytes ≡ r₂ =
        sym (drop-drop (length key) 2 bytes)
        ∙ ap (drop (length key)) d₁
        ∙ drop-append key r₂ (length key) refl in
      let d₃ : drop (2 + length key + 4) bytes ≡ r₃ =
        sym (drop-drop 4 (2 + length key) bytes) ∙ ap (drop 4) d₂ ∙ drop-append vl r₃ 4 s₂ in
      let d₄ : drop (2 + length key + 4 + length value) bytes ≡ t =
        sym (drop-drop (length value) (2 + length key + 4) bytes)
        ∙ ap (drop (length value)) d₃
        ∙ drop-append value t (length value) refl in
      let whole : length bytes ≡ 2 + length key + 4 + length value + 8 = omega (
        arith,
        length-append kl r₁,
        length-append key r₂,
        length-append vl r₃,
        length-append value t,
        s₁,
        s₂,
        s₃,
      ) in
      handle_put_parts m bytes secs (length key) (length value) ttl key value (ap from_be e₁ ∙ e₂)
        (ap (λ r. from_be (take 4 r)) d₂
          ∙ ap from_be (take-append vl r₃ 4 s₂)
          ∙ from_be-be_bytes 4 (length value) hv)
        (ap (take (length value)) d₃ ∙ take-append value t (length value) refl)
        (ap (λ r. from_be (take 8 r)) d₄
          ∙ ap from_be (take_all 8 t (omega (arith, s₃)))
          ∙ from_be-be_bytes 8 ttl ht)
        (ap (take (length key)) d₁ ∙ take-append key r₂ (length key) refl) whole

  found :
      (m : DhtManager) (key value : List ℕ) (ttl secs later : ℕ)
      → get_value_by_hash sha256 (put_value sha256 m key value ttl secs).0 (sha256 key) later ≡ (
          if leb ((secs + ttl) % u64_mod) later
          then none
          else some (record { value = value; created_at = secs; ttl = ttl }))
  unfolding get_value_by_hash put_value is_expired
  found m key value ttl secs later =
      let v : ValueEntry = record { value = value; created_at = secs; ttl = ttl } in
      let P : Option ValueEntry → Type 0 = λ o.
        (elim o [
          | none ↦ none
          | some w ↦ if not (leb ((w.created_at + w.ttl) % u64_mod) later) then some w else none
        ])
        ≡ (if leb ((secs + ttl) % u64_mod) later then none else some v) in
      subst P (sym (lookup-insert_self bytes_eq (sha256 key) v m.values)) (ground arith)

  abbrev answer : List ℕ → Option ValueEntry → List Message
  answer key_hash none = []
  answer key_hash (some v) =
      record {
        msg_type = MessageType.dht;
        payload = 7 ∷ (key_hash ++ (be_bytes 4 (length v.value % u32_mod) ++ v.value));
      }
      ∷ []

  answered :
      (key_hash : List ℕ) (o : Option ValueEntry)
      → (elim o [
        | none ↦ []
        | some v ↦
            create_dht_message DhtMessageType.value_
              (key_hash ++ (be_bytes 4 (length v.value % u32_mod) ++ v.value))
            ∷ []
      ])
        ≡ answer key_hash o
  unfolding create_dht_message to_u8
  answered key_hash none = refl
  answered key_hash (some v) = refl

  on_get-answer :
      (m : DhtManager) (key_hash : List ℕ) (later : ℕ) (o : Option ValueEntry)
      → length key_hash ≡ 32
      → get_value_by_hash sha256 m key_hash later ≡ o
      → on_get sha256 m key_hash later ≡ answer key_hash o
  unfolding on_get
  on_get-answer m key_hash later o h e =
      if_false (ltb (length key_hash) 32) _ _ (ground (arith, h))
      ∙ answered (take 32 key_hash) (get_value_by_hash sha256 m (take 32 key_hash) later)
      ∙ ap (λ k. answer k (get_value_by_hash sha256 m k later))
          (take_all 32 key_hash (omega (arith, h)))
      ∙ ap (answer key_hash) e

  answer-if :
      (key_hash : List ℕ) (b : Bool) (v : ValueEntry)
      → length v.value < u32_mod
      → answer key_hash (if b then none else some v) ≡ (
          if b
          then []
          else record {
            msg_type = MessageType.dht;
            payload = 7 ∷ (key_hash ++ (be_bytes 4 (length v.value) ++ v.value));
          }
            ∷ [])
  answer-if key_hash true v h = refl
  answer-if key_hash false v h =
      let e : length v.value % u32_mod ≡ length v.value = omega (arith, h) in rw e refl

  -- A value that arrives in a PUT message, with a key, value and lifetime that fit their fields, is
  -- sent to whoever asks for the hash of the key by a GET message until its lifetime, in seconds, has
  -- passed since it arrived; from then on there is no answer. A lifetime that takes the time of
  -- expiry past 2 ^ 64 counts from 0.
  pub put_then_get :
      (m : DhtManager) (sender asker : NodeId) (key value : List ℕ)
      (ttl now secs later_now later : ℕ)
      → length key < u16_mod
      → length value < u32_mod
      → ttl < u64_mod
      → length (sha256 key) ≡ 32
      → (process_message sha256
          (process_message sha256 m sender (5 ∷ put_bytes key value ttl) now secs).0
          asker
          (6 ∷ sha256 key)
          later_now
          later).1
        ≡ (if leb ((secs + ttl) % u64_mod) later
            then []
            else record {
              msg_type = MessageType.dht;
              payload = 7 ∷ (sha256 key ++ (be_bytes 4 (length value) ++ value));
            }
              ∷ [])
  unfolding process_message from_u8 on_type
  put_then_get m sender asker key value ttl now secs later_now later hk hv ht h32 =
      let v : ValueEntry = record { value = value; created_at = secs; ttl = ttl } in
      ap (λ s. on_get sha256 s (sha256 key) later)
        (handle_put-put_bytes m key value ttl secs hk hv ht)
      ∙ on_get-answer (put_value sha256 m key value ttl secs).0 (sha256 key) later _ h32
          (found m key value ttl secs later)
      ∙ answer-if (sha256 key) (leb ((secs + ttl) % u64_mod) later) v hv
