-- ===== src/Storage/Incremental/Blocks.antt =====
-- The blocks that a download keeps, fetches and puts in order (crates/vpn/src/storage/incremental.rs).

use mathlib.Core.Option.{some-injective}
use lan_link.Prelude.{
  ℕ, zero, suc, ◌+◌, ◌%◌, ◌<◌, ◌≤◌, ◌≡◌, ◌⊎◌, inl, inr, refl, ap, sym, ◌∙◌, List, [], ◌∷◌, length,
  get_elem?, All, some, ℕ_discrete, arith,
}
use lan_link.Prelude.Words.{u32_mod}
use lan_link.Prelude.Branches.{on_option, on_dec}
use lan_link.Prelude.Bytes.{bytes_eq}
use lan_link.Prelude.Assoc
use lan_link.Prelude.Assoc.{lookup-insert_self, lookup-insert_ne, lookup-remove_ne}
use lan_link.Prelude.Result.{Result, ok, on_ok, on_some}
use lan_link.Storage.Chunk.{Hash, ChunkMeta, chunk_at, chunk_loop}
use lan_link.Storage.Incremental.{SyncError, Blocks, keep_matching, missing, fetch, in_order}

-- The index is in the list.
abbrev pub In : ℕ → List ℕ → Type 0
In j [] = ⊥
In j (i ∷ is) = (j ≡ i) ⊎ In j is

module _ (sha256 : List ℕ → Hash) where
  pub length-chunk_loop :
      (cs i n : ℕ) (bytes : List ℕ) → length (chunk_loop sha256 cs i n bytes).0 ≡ n
  unfolding chunk_loop
  length-chunk_loop cs i zero bytes = refl
  length-chunk_loop cs i (suc n) bytes = ap suc (length-chunk_loop cs (suc i) n bytes)

  hash-chunk_loop :
      (cs i n k : ℕ) (bytes : List ℕ) (r : ChunkMeta)
      → get_elem? (chunk_loop sha256 cs i n bytes).0 k ≡ some r
      → (k < n) × (r.hash ≡ sha256 (chunk_at cs (i + k) bytes))
  unfolding chunk_loop
  hash-chunk_loop cs i zero k bytes r e = absurd (cc)
  hash-chunk_loop cs i (suc n) zero bytes r e =
      let same : i + 0 ≡ i = omega arith in
      (
        omega arith,
        sym (ap ChunkMeta.hash (some-injective _ _ e))
            ∙ ap (λ j. sha256 (chunk_at cs j bytes)) (sym same),
      )
  hash-chunk_loop cs i (suc n) (suc k) bytes r e =
      let ih = hash-chunk_loop cs (suc i) n k bytes r e in
      let same : suc i + k ≡ i + suc k = omega arith in
      (omega arith, ih.1 ∙ ap (λ j. sha256 (chunk_at cs j bytes)) same)

  -- A file on the other node, in chunks of `cs` bytes.
  module _ (cs : ℕ) (file : List ℕ) (n : ℕ) where
    -- The block is what the other node has there.
    abbrev pub Has : Blocks → ℕ → Type 0
    Has blocks j = Assoc.lookup ℕ_discrete j blocks ≡ some (chunk_at cs j file)

    -- Every block is one of the other node's.
    abbrev pub IsRight : Blocks → Type 0
    IsRight blocks =
        (j : ℕ) (c : List ℕ)
        → Assoc.lookup ℕ_discrete j blocks ≡ some c
        → (j < n) × (c ≡ chunk_at cs j file)

    IsRight-insert :
        (i : ℕ) (c : List ℕ) (blocks : Blocks)
        → i < n
        → c ≡ chunk_at cs i file
        → IsRight blocks
        → IsRight (Assoc.insert ℕ_discrete i c blocks)
    IsRight-insert i c blocks h e r j d l = elim (ℕ_discrete j i) [
      | yes p ↦
          let same : d ≡ c = some-injective _ _ (
            sym l
            ∙ ap (λ k. Assoc.lookup ℕ_discrete k (Assoc.insert ℕ_discrete i c blocks)) p
            ∙ lookup-insert_self ℕ_discrete i c blocks) in
          (omega (arith, p, h), same ∙ e ∙ ap (λ k. chunk_at cs k file) (sym p))
      | no ne ↦ r j d (sym (lookup-insert_ne ℕ_discrete i j c blocks ne) ∙ l)
    ]

    pub keep_matching-IsRight :
        (bytes : List ℕ) (i m : ℕ) (have : Blocks)
        → n < u32_mod
        → ((j : ℕ)
            → sha256 (chunk_at cs j file) ≡ sha256 (chunk_at cs j bytes)
            → chunk_at cs j bytes ≡ chunk_at cs j file)
        → IsRight have
        → IsRight (
            keep_matching sha256
              (chunk_loop sha256 cs 0 n file).0
              i
              (chunk_loop sha256 cs i m bytes).1
              have)
    unfolding keep_matching chunk_loop
    keep_matching-IsRight bytes i zero have small free r = r
    keep_matching-IsRight bytes i (suc m) have small free r =
        keep_matching-IsRight bytes (suc i) m _ small free (
          on_option IsRight (get_elem? (chunk_loop sha256 cs 0 n file).0 i) (λ _. r)
            (λ meta e.
              let h = hash-chunk_loop cs 0 n i file meta e in
              let zero_ : 0 + i ≡ i = omega arith in
              let index : i % u32_mod ≡ i = omega (arith, h.0, small) in
              on_dec IsRight (bytes_eq meta.hash (sha256 (chunk_at cs i bytes)))
                (λ same. rw index (
                  IsRight-insert i (chunk_at cs i bytes) have h.0
                    (free i (ap (λ j. sha256 (chunk_at cs j file)) (sym zero_) ∙ sym h.1 ∙ same))
                    r))
                (λ _. r)))

    pub missing-In :
        (have : Blocks) (i k j : ℕ)
        → IsRight have
        → i ≤ j
        → j < i + k
        → Has have j ⊎ In j (missing sha256 have i k)
    unfolding missing
    missing-In have i zero j r h g = absurd (omega arith)
    missing-In have i (suc k) j r h g =
        let P : List ℕ → Type 0 = λ l. Has have j ⊎ In j l in
        elim (ℕ_discrete j i) [
          | yes p ↦
              on_option P (Assoc.lookup ℕ_discrete i have) (λ _. inr (inl p))
                (λ c e.
                  let there = ap (λ k. Assoc.lookup ℕ_discrete k have) p ∙ e in
                  inl (there ∙ ap some ((r j c there).1)))
          | no ne ↦
              let ih = missing-In have (suc i) k j r (omega arith) (omega arith) in
              on_option P (Assoc.lookup ℕ_discrete i have)
                (λ _.
                  let Q : Has have j ⊎ In j (i ∷ missing sha256 have (suc i) k) = elim ih [
                    | inl a ↦ inl a
                    | inr b ↦ inr (inr b)
                  ] in
                  Q)
                (λ c _. ih)
        ]

    pub missing-All :
        (have : Blocks) (i k : ℕ) → i + k ≤ n → All (λ j. j < n) (missing sha256 have i k)
    unfolding missing
    missing-All have i zero h = tt
    missing-All have i (suc k) h =
        on_option (All (λ j. j < n)) (Assoc.lookup ℕ_discrete i have)
          (λ _. (omega arith, missing-All have (suc i) k (omega arith)))
          (λ c _. missing-All have (suc i) k (omega arith))

    -- What the requests for blocks leave, if the other node has them.
    abbrev Fetched : List ℕ → Blocks → Result SyncError (Blocks × ℕ) → Type 0
    Fetched need have r =
        (blocks : Blocks) × (bytes : ℕ) × (r ≡ ok (blocks, bytes))
        × ((j : ℕ) → (Has have j ⊎ In j need) → Has blocks j)

    pub fetch-Fetched :
        (request : ℕ → Result SyncError (List ℕ)) (need : List ℕ) (have : Blocks)
        → ((j : ℕ) → j < n → request j ≡ ok (chunk_at cs j file))
        → All (λ j. j < n) need
        → Fetched need have (fetch sha256 request need have)
    unfolding fetch
    fetch-Fetched request [] have honest a =
        (have, 0, refl, (λ j h. elim h [ inl x ↦ x | inr y ↦ absurd y ]))
    fetch-Fetched request (i ∷ need) have honest a =
        let c = chunk_at cs i file in
        let (blocks, bytes, e, kept) =
          fetch-Fetched request need (Assoc.insert ℕ_discrete i c have) honest a.1 in
        let written : (j : ℕ) → j ≡ i → Has blocks j = λ j p. kept j (
          inl (
            ap (λ k. Assoc.lookup ℕ_discrete k (Assoc.insert ℕ_discrete i c have)) p
            ∙ lookup-insert_self ℕ_discrete i c have
            ∙ ap (λ k. some (chunk_at cs k file)) (sym p))) in
        let old : (j : ℕ) → Has have j → Has blocks j = λ j h. elim (ℕ_discrete j i) [
          | yes p ↦ written j p
          | no ne ↦ kept j (inl (lookup-insert_ne ℕ_discrete i j c have ne ∙ h))
        ] in
        (
          blocks,
          length c + bytes,
          on_ok (request i) c _ _ (honest i a.0)
              ∙ on_ok (fetch sha256 request need (Assoc.insert ℕ_discrete i c have)) (blocks, bytes)
                  _ _ e,
          (λ j h. elim h [
            | inl x ↦ old j x
            | inr m ↦ elim m [ inl p ↦ written j p | inr q ↦ kept j (inr q) ]
          ]),
        )

    pub in_order-pieces :
        (blocks : Blocks) (i k : ℕ)
        → ((j : ℕ) → i ≤ j → j < i + k → Has blocks j)
        → in_order sha256 blocks i k ≡ ok (chunk_loop sha256 cs i k file).1
    unfolding in_order chunk_loop
    in_order-pieces blocks i zero h = refl
    in_order-pieces blocks i (suc k) h =
        let ih = in_order-pieces (Assoc.remove ℕ_discrete i blocks) (suc i) k (λ j a b.
          lookup-remove_ne ℕ_discrete i j blocks (λ e. omega arith)
          ∙ h j (omega arith) (omega arith)) in
        on_some (Assoc.lookup ℕ_discrete i blocks) (chunk_at cs i file) _ _
          (h i (omega arith) (omega arith))
        ∙ on_ok (in_order sha256 (Assoc.remove ℕ_discrete i blocks) (suc i) k) _ _ _ ih
