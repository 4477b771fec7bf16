-- ===== src/Storage/Chunk/Tiling.antt =====
-- Where the chunks of a file lie, and what a file that is put together has to be
-- (crates/vpn/src/storage/chunk.rs).

use native.Mathlib.Nat.{lt-div-mul-add, div-mul-le_self, suc-mul, zero-mul}
use lan_link.Prelude.{
  ℕ, zero, suc, ◌+◌, ◌-◌, ◌*◌, ◌%◌, ◌≤◌, ◌<◌, ◌≡◌, refl, ap, sym, ◌∙◌, subst, min, List, [], ◌∷◌,
  length, drop, length-take, length-drop, true, not, ◌==◌, arith,
}
use lan_link.Prelude.Words.{u32_mod}
use lan_link.Prelude.Bytes.{bytes_eq}
use lan_link.Prelude.Branches.{on_if, on_dec}
use lan_link.Prelude.Result.{Result, ok}
use lan_link.Storage.Chunk.{
  Hash, ChunkMeta, FileManifest, Chunker, ReassembleError, chunk_at, chunk_loop, num_chunks,
  chunk_data, sizes_match, concat, reassemble,
}

module _ (sha256 : List ℕ → Hash) where
  -- The chunks are not empty, have at most `cs` bytes, and lie one after the other from `offset` to
  -- `total`, with the sizes, offsets, hashes and indices that their entries say.
  abbrev pub Tiles : ℕ → ℕ → ℕ → ℕ → List ChunkMeta → List (List ℕ) → Type 0
  Tiles cs total offset i [] [] = offset ≡ total
  Tiles cs total offset i [] (p ∷ pieces) = ⊥
  Tiles cs total offset i (m ∷ metas) [] = ⊥
  Tiles cs total offset i (m ∷ metas) (p ∷ pieces) =
      (m.offset ≡ offset)
      × (m.size ≡ length p)
      × (m.hash ≡ sha256 p)
      × (m.index ≡ i % u32_mod)
      × (1 ≤ length p)
      × (length p ≤ cs)
      × Tiles cs total (offset + length p) (suc i) metas pieces

  length-chunk_at :
      (cs i : ℕ) (bytes : List ℕ)
      → i * cs ≤ length bytes
      → length (chunk_at cs i bytes) ≡ min cs (length bytes - i * cs)
  length-chunk_at cs i bytes h = omega (
    arith,
    length-take (min (i * cs + cs) (length bytes) - i * cs) (drop (i * cs) bytes),
    length-drop (i * cs) bytes,
  )

  Tiles-chunk_loop :
      (cs i n : ℕ) (bytes : List ℕ)
      → 0 < cs
      → i * cs ≤ length bytes
      → length bytes - i * cs ≤ n * cs
      → n * cs < length bytes - i * cs + cs
      → Tiles cs
          (length bytes)
          (i * cs)
          i
          (chunk_loop sha256 cs i n bytes).0
          (chunk_loop sha256 cs i n bytes).1
  unfolding chunk_loop
  Tiles-chunk_loop cs i zero bytes pos h g k = omega (arith, zero-mul cs)
  Tiles-chunk_loop cs i (suc zero) bytes pos h g k =
      let size = length-chunk_at cs i bytes h in
      let one = suc-mul 0 cs in
      let none_ = zero-mul cs in
      (
        refl,
        refl,
        refl,
        refl,
        omega (arith, size, one, none_),
        omega (arith, size),
        omega (arith, size, one, none_),
      )
  Tiles-chunk_loop cs i (suc (suc n)) bytes pos h g k =
      let size = length-chunk_at cs i bytes h in
      let two = suc-mul (suc n) cs in
      let more = suc-mul n cs in
      let full : length (chunk_at cs i bytes) ≡ cs = omega (arith, size, two, more) in
      let next : i * cs + length (chunk_at cs i bytes) ≡ suc i * cs =
        omega (arith, full, suc-mul i cs) in
      let rest =
        Tiles-chunk_loop cs (suc i) (suc n) bytes pos (omega (arith, suc-mul i cs, two, more))
          (omega (arith, suc-mul i cs, two)) (omega (arith, suc-mul i cs, two, more)) in
      (
        refl,
        refl,
        refl,
        refl,
        omega (arith, full),
        omega (arith, full),
        subst
            (λ o.
              Tiles cs (length bytes) o (suc i) (chunk_loop sha256 cs (suc i) (suc n) bytes).0
                (chunk_loop sha256 cs (suc i) (suc n) bytes).1)
            (sym next) rest,
      )

  pub num_chunks_bounds :
      (cs : ℕ) (bytes : List ℕ)
      → 0 < cs
      → (length bytes ≤ num_chunks sha256 cs bytes * cs)
        × (num_chunks sha256 cs bytes * cs < length bytes + cs)
  unfolding num_chunks
  num_chunks_bounds cs [] h = (omega arith, omega (arith, zero-mul cs))
  num_chunks_bounds cs (b ∷ bytes) h =
      let n = length (b ∷ bytes) + cs - 1 in
      (omega (arith, lt-div-mul-add {a = n} {b = cs} h), omega (arith, div-mul-le_self n cs))

  -- The chunks of a file tile it: in order from offset 0 to its end, none empty, each of at most the
  -- chunk size, and each with the offset, size, hash and index (as a u32) that the manifest says.
  pub chunk_data-Tiles :
      (c : Chunker) (bytes : List ℕ)
      → 0 < c.chunk_size
      → Tiles c.chunk_size
          (length bytes)
          0
          0
          (chunk_data sha256 c bytes).0.chunks
          (chunk_data sha256 c bytes).1
  unfolding chunk_data
  chunk_data-Tiles c bytes h =
      let bounds = num_chunks_bounds c.chunk_size bytes h in
      let n = num_chunks sha256 c.chunk_size bytes in
      let none_ = zero-mul c.chunk_size in
      subst
        (λ o.
          Tiles c.chunk_size (length bytes) o 0 (chunk_loop sha256 c.chunk_size 0 n bytes).0
            (chunk_loop sha256 c.chunk_size 0 n bytes).1)
        none_
        (Tiles-chunk_loop c.chunk_size 0 n bytes h (omega (arith, none_))
          (omega (arith, none_, bounds.0)) (omega (arith, none_, bounds.1)))

  -- What `reassemble` returns is the chunks one after the other, as many as the manifest lists, of the
  -- listed sizes, and their hash is that of the manifest.
  pub reassemble_sound :
      (m : FileManifest) (pieces : List (List ℕ)) (bytes : List ℕ)
      → reassemble sha256 m pieces ≡ ok bytes
      → (bytes ≡ concat sha256 pieces)
        × (sha256 bytes ≡ m.file_hash)
        × (length pieces ≡ length m.chunks)
        × (sizes_match sha256 m.chunks pieces ≡ true)
  unfolding reassemble
  reassemble_sound m pieces bytes e =
      let P : Result ReassembleError (List ℕ) → Type 0 = λ r.
        r ≡ ok bytes
        → (bytes ≡ concat sha256 pieces)
          × (sha256 bytes ≡ m.file_hash)
          × (length pieces ≡ length m.chunks)
          × (sizes_match sha256 m.chunks pieces ≡ true) in
      on_if P (not (length pieces == length m.chunks)) (λ _ r. absurd (cc))
        (λ count.
          on_if P (not (sizes_match sha256 m.chunks pieces)) (λ _ r. absurd (cc))
            (λ sizes.
              on_dec P (bytes_eq (sha256 (concat sha256 pieces)) m.file_hash)
                (λ hash r.
                  let same : concat sha256 pieces ≡ bytes = cc in
                  (sym same, ap sha256 (sym same) ∙ hash, ground arith, ground arith))
                (λ _ r. absurd (cc))))
        e
