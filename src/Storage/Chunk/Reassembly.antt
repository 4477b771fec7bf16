-- ===== src/Storage/Chunk/Reassembly.antt =====
-- What is cut into chunks is put together again (crates/vpn/src/storage/chunk.rs).

use native.Mathlib.Nat.{suc-mul, zero-mul}
use lan_link.Prelude.{
  ℕ, zero, suc, ◌+◌, ◌-◌, ◌*◌, ◌<◌, ◌≡◌, refl, ap, sym, ◌∙◌, min, List, ◌++◌, length, take, drop,
  take_all, take-add, drop-drop, length-drop, true, arith, dec_le, if_pos,
}
use lan_link.Prelude.Bytes.{bytes_eq}
use lan_link.Prelude.Result.{ok, err}
use lan_link.Storage.Chunk.Tiling.{num_chunks_bounds}
use lan_link.Storage.Chunk.{
  Hash, FileManifest, Chunker, ReassembleError, chunk_at, chunk_loop, num_chunks, chunk_data,
  sizes_match, concat, reassemble,
}

-- A chunk is cut from what begins at its offset; the bound by the end of the file changes nothing.
chunk_at-take : (cs i : ℕ) (bytes : List ℕ) → chunk_at cs i bytes ≡ take cs (drop (i * cs) bytes)
chunk_at-take cs i bytes = elim (dec_le (i * cs + cs) (length bytes)) [
  | yes p ↦ ap (λ n. take n (drop (i * cs) bytes)) (omega arith)
  | no p ↦
      take_all (min (i * cs + cs) (length bytes) - i * cs) (drop (i * cs) bytes)
        (omega (arith, length-drop (i * cs) bytes))
      ∙ sym (take_all cs (drop (i * cs) bytes) (omega (arith, length-drop (i * cs) bytes)))
]

module _ (sha256 : List ℕ → Hash) where
  concat-chunk_loop :
      (cs i n : ℕ) (bytes : List ℕ)
      → concat sha256 (chunk_loop sha256 cs i n bytes).1 ≡ take (n * cs) (drop (i * cs) bytes)
  unfolding concat chunk_loop
  concat-chunk_loop cs i zero bytes = sym (ap (λ k. take k (drop (i * cs) bytes)) (zero-mul cs))
  concat-chunk_loop cs i (suc n) bytes =
      let here = drop (i * cs) bytes in
      let next : drop (suc i * cs) bytes ≡ drop cs here =
        ap (λ k. drop k bytes) (suc-mul i cs) ∙ sym (drop-drop cs (i * cs) bytes) in
      ap (λ p. p ++ concat sha256 (chunk_loop sha256 cs (suc i) n bytes).1)
        (chunk_at-take cs i bytes)
      ∙ ap (λ r. take cs here ++ r) (concat-chunk_loop cs (suc i) n bytes)
      ∙ ap (λ d. take cs here ++ take (n * cs) d) next
      ∙ sym (take-add cs (n * cs) here)
      ∙ ap (λ k. take k here) (omega (arith, suc-mul n cs))

  pub lengths-chunk_loop :
      (cs i n : ℕ) (bytes : List ℕ)
      → (length (chunk_loop sha256 cs i n bytes).1 ≡ length (chunk_loop sha256 cs i n bytes).0)
        × (sizes_match sha256 (chunk_loop sha256 cs i n bytes).0 (chunk_loop sha256 cs i n bytes).1
            ≡ true)
  unfolding chunk_loop sizes_match
  lengths-chunk_loop cs i zero bytes = (refl, refl)
  lengths-chunk_loop cs i (suc n) bytes =
      let rest = lengths-chunk_loop cs (suc i) n bytes in (ap suc rest.0, ground (arith, rest.1))

  concat-chunk_data :
      (c : Chunker) (bytes : List ℕ)
      → 0 < c.chunk_size
      → concat sha256 (chunk_data sha256 c bytes).1 ≡ bytes
  unfolding chunk_data
  concat-chunk_data c bytes h =
      concat-chunk_loop c.chunk_size 0 (num_chunks sha256 c.chunk_size bytes) bytes
      ∙ ap (λ k. take (num_chunks sha256 c.chunk_size bytes * c.chunk_size) (drop k bytes))
          (zero-mul c.chunk_size)
      ∙ take_all (num_chunks sha256 c.chunk_size bytes * c.chunk_size) bytes
          (num_chunks_bounds sha256 c.chunk_size bytes h).0

  reassemble-accepts :
      (m : FileManifest) (pieces : List (List ℕ))
      → length pieces ≡ length m.chunks
      → sizes_match sha256 m.chunks pieces ≡ true
      → sha256 (concat sha256 pieces) ≡ m.file_hash
      → reassemble sha256 m pieces ≡ ok (concat sha256 pieces)
  unfolding reassemble
  reassemble-accepts m pieces e f g = ground (
    arith,
    if_pos (bytes_eq (sha256 (concat sha256 pieces)) m.file_hash) g (ok (concat sha256 pieces))
        (err ReassembleError.hash_mismatch),
  )

  -- A file that was cut into chunks, of any positive size, is put together again from its manifest
  -- and the chunks, for any hash function.
  pub reassemble-chunk_data :
      (c : Chunker) (bytes : List ℕ)
      → 0 < c.chunk_size
      → reassemble sha256 (chunk_data sha256 c bytes).0 (chunk_data sha256 c bytes).1 ≡ ok bytes
  unfolding chunk_data
  reassemble-chunk_data c bytes h =
      let whole = concat-chunk_data c bytes h in
      let sizes = lengths-chunk_loop c.chunk_size 0 (num_chunks sha256 c.chunk_size bytes) bytes in
      reassemble-accepts (chunk_data sha256 c bytes).0 (chunk_data sha256 c bytes).1 sizes.0 sizes.1
        (ap sha256 whole)
      ∙ ap ok whole
