-- ===== src/Storage/Diff/Complete.antt =====
-- What a diff tells of the local file (crates/vpn/src/storage/diff.rs).

use lan_link.Prelude.{
  ℕ, zero, suc, ◌+◌, ◌-◌, min, ◌%◌, ◌<◌, ◌≤◌, ◌≡◌, ◌≢◌, refl, ap, ◌∙◌, List, [], ◌∷◌, length,
  get_elem?, true, false, not, ◌&&◌, Option, none, some, ltb, leb, ◌==◌, if◌then◌else◌, inl, inr,
  Option-cases, arith, dec_lt,
}
use lan_link.Prelude.Words.{u32_mod}
use lan_link.Prelude.Branches.{on_if, on_dec}
use lan_link.Prelude.Bytes.{bytes_eq}
use lan_link.Prelude.Result.{Result, ok, err}
use lan_link.Storage.Chunk.{Hash, ChunkMeta, FileManifest, chunk_at, num_chunks}
use lan_link.Storage.Diff.{
  BlockDiffStatus, BlockDiff, FileDiff, BlockDiffEngine, DiffError, max, diff_block, diff_loop,
  diff_files, transfer_of,
}

-- The change of a block, if the list has one.
abbrev pub find_block : ℕ → List BlockDiff → Option BlockDiff
find_block j [] = none
find_block j (b ∷ blocks) = if b.index == j then some b else find_block j blocks

-- The hash of block `j` of the new file, by the changes and the old hashes.
abbrev pub hash_after : BlockDiffStatus → Hash → Option Hash
hash_after BlockDiffStatus.unchanged h = some h
hash_after BlockDiffStatus.modified h = some h
hash_after BlockDiffStatus.added h = some h
hash_after BlockDiffStatus.deleted h = none

abbrev pub hash_of : Option BlockDiff → Option ChunkMeta → Option Hash
hash_of none none = none
hash_of none (some r) = some r.hash
hash_of (some b) old = hash_after b.status b.new_hash

get_elem?-ne_none : (cs : List ChunkMeta) (j : ℕ) → j < length cs → get_elem? cs j ≢ none
get_elem?-ne_none [] j h e = absurd (omega arith)
get_elem?-ne_none (c ∷ cs) zero h e = cc
get_elem?-ne_none (c ∷ cs) (suc j) h e = get_elem?-ne_none cs j (omega arith) e

get_elem?-none : (cs : List ChunkMeta) (j : ℕ) → length cs ≤ j → get_elem? cs j ≡ none
get_elem?-none [] j h = refl
get_elem?-none (c ∷ cs) zero h = absurd (omega arith)
get_elem?-none (c ∷ cs) (suc j) h = get_elem?-none cs j (omega arith)

module _ (sha256 : List ℕ → Hash) (cs : ℕ) (remote : List ChunkMeta) (bytes : List ℕ) (n : ℕ) where
  diff_block-index :
      (i : ℕ) (b : BlockDiff) → diff_block sha256 cs remote bytes n i ≡ some b → b.index ≡ i
  unfolding diff_block
  diff_block-index i b e = ground arith

  find_block-diff_loop :
      (rounds i j : ℕ)
      → find_block j (diff_loop sha256 cs remote bytes n i rounds).0
        ≡ (if leb i j && ltb j (i + rounds) then diff_block sha256 cs remote bytes n j else none)
  unfolding diff_loop
  find_block-diff_loop zero i j = ground arith
  find_block-diff_loop (suc rounds) i j =
      elim (Option-cases (diff_block sha256 cs remote bytes n i)) [
        | inl e ↦ ground (arith, find_block-diff_loop rounds (suc i) j)
        | inr (b, e) ↦ ground (arith, find_block-diff_loop rounds (suc i) j, diff_block-index i b e)
      ]

  -- What a block of the diff tells is the hash of that block of the local file, if it has one.
  hash_of-diff_block :
      (j : ℕ)
      → (get_elem? remote j ≡ none → j < n)
      → hash_of (diff_block sha256 cs remote bytes n j) (get_elem? remote j)
        ≡ (if ltb j n then some (sha256 (chunk_at cs j bytes)) else none)
  unfolding diff_block
  hash_of-diff_block j h = elim (Option-cases (get_elem? remote j)) [
    | inl e ↦ rw e (ground (arith, h e))
    | inr (r, e) ↦ rw e (ground arith)
  ]

  -- The counts of the diff.
  abbrev local_in : ℕ → ℕ → ℕ
  local_in i zero = 0
  local_in i (suc rounds) =
      if ltb i n then suc (local_in (suc i) rounds) else local_in (suc i) rounds

  transfer-diff_loop :
      (rounds i : ℕ)
      → ((j : ℕ) → j < i + rounds → get_elem? remote j ≡ none → j < n)
      → (diff_loop sha256 cs remote bytes n i rounds).1
          + (transfer_of (diff_loop sha256 cs remote bytes n i rounds).0).0
        ≡ local_in i rounds
  unfolding diff_loop transfer_of diff_block
  transfer-diff_loop zero i h = refl
  transfer-diff_loop (suc rounds) i h =
      let ih = transfer-diff_loop rounds (suc i) (λ j l. h j (omega arith)) in
      elim (Option-cases (get_elem? remote i)) [
        | inl e ↦ let small = h i (omega arith) e in ground (arith, ih)
        | inr (r, e) ↦ ground (arith, ih)
      ]

  length-local_in : (i rounds : ℕ) → local_in i rounds ≡ min rounds (n - i)
  length-local_in i zero = omega arith
  length-local_in i (suc rounds) = ground (arith, length-local_in (suc i) rounds)

-- What the changes and the old manifest together tell of every block of the new file, and how many
-- blocks are counted.
abbrev pub Tells : (List ℕ → Hash) → ℕ → FileManifest → List ℕ → FileDiff → Type 0
Tells sha256 cs m bytes d =
    ((j : ℕ)
      → hash_of (find_block j d.changed_blocks) (get_elem? m.chunks j) ≡ (
          if ltb j (num_chunks sha256 cs bytes) then some (sha256 (chunk_at cs j bytes)) else none))
    × (d.unchanged_count + (transfer_of d.changed_blocks).0 ≡ num_chunks sha256 cs bytes)

Tells-diff_loop :
    (sha256 : List ℕ → Hash) (cs : ℕ) (m : FileManifest) (bytes : List ℕ) (rounds : ℕ)
    → rounds ≡ max (length m.chunks) (num_chunks sha256 cs bytes)
    → let n = num_chunks sha256 cs bytes in
      let blocks = diff_loop sha256 cs m.chunks bytes n 0 rounds in
      ((j : ℕ)
        → hash_of (find_block j blocks.0) (get_elem? m.chunks j)
          ≡ (if ltb j n then some (sha256 (chunk_at cs j bytes)) else none))
      × (blocks.1 + (transfer_of blocks.0).0 ≡ n)
Tells-diff_loop sha256 cs m bytes rounds size =
    let n = num_chunks sha256 cs bytes in
    let remote = m.chunks in
    let D = diff_block sha256 cs remote bytes n in
    let long : length remote ≤ rounds = ground arith in
    let wide : n ≤ rounds = ground arith in
    let within : (j : ℕ) → j < 0 + rounds → get_elem? remote j ≡ none → j < n = λ j h e.
      elim (dec_lt j n) [
        | yes p ↦ p
        | no p ↦ absurd (get_elem?-ne_none remote j (ground arith) e)
      ] in
    (
      (λ j. elim (dec_lt j rounds) [
        | yes p ↦
            ap (λ o. hash_of o (get_elem? remote j))
              (find_block-diff_loop sha256 cs remote bytes n rounds 0 j ∙ (ground (arith, p)))
            ∙ hash_of-diff_block sha256 cs remote bytes n j (within j (omega arith))
        | no p ↦
            let nothing : find_block j (diff_loop sha256 cs remote bytes n 0 rounds).0 ≡ none =
              find_block-diff_loop sha256 cs remote bytes n rounds 0 j ∙ (ground (arith, p)) in
            rw (nothing, get_elem?-none remote j (omega (arith, long))) (ground (arith, wide, p))
      ]),
      transfer-diff_loop sha256 cs remote bytes n rounds 0 within
          ∙ length-local_in sha256 cs remote bytes n 0 rounds
          ∙ (omega (arith, wide)),
    )

-- The diff of a local file against a manifest of the same chunk size, where the chunks of either
-- are fewer than 2 ^ 32: if it says that the files match, the local file has the hash of the manifest; otherwise the changed blocks and the hashes of
-- the manifest together give the hash of every block of the local file and no more, and the unchanged
-- blocks and those to transfer are as many as the local file has. With another chunk size there is
-- an error.
pub diff_files_lem :
    (sha256 : List ℕ → Hash) (e : BlockDiffEngine) (m : FileManifest) (bytes : List ℕ)
    → length m.chunks < u32_mod
    → num_chunks sha256 e.chunk_size bytes < u32_mod
    → (m.chunk_size ≢ e.chunk_size
        → diff_files sha256 e m bytes ≡ err DiffError.chunk_size_mismatch)
      × (m.chunk_size ≡ e.chunk_size
          → (d : FileDiff) × (diff_files sha256 e m bytes ≡ ok d)
            × (d.files_match ≡ true → sha256 bytes ≡ m.file_hash)
            × (d.files_match ≡ false → Tells sha256 e.chunk_size m bytes d))
unfolding diff_files
diff_files_lem sha256 e m bytes hm hn = (
  (λ ne. ground arith),
  (λ eq.
      let n = num_chunks sha256 e.chunk_size bytes in
      let a : length m.chunks % u32_mod ≡ length m.chunks = omega (arith, hm) in
      let b : n % u32_mod ≡ n = omega (arith, hn) in
      let told =
        Tells-diff_loop sha256 e.chunk_size m bytes (max (length m.chunks % u32_mod) (n % u32_mod))
          (rw (a, b) refl) in
      let P : Result DiffError FileDiff → Type 0 = λ r.
        (d : FileDiff) × (r ≡ ok d)
        × (d.files_match ≡ true → sha256 bytes ≡ m.file_hash)
        × (d.files_match ≡ false → Tells sha256 e.chunk_size m bytes d) in
      on_if P (not (m.chunk_size == e.chunk_size)) (λ h. absurd (ground arith))
        (λ _.
          on_dec P (bytes_eq (sha256 bytes) m.file_hash)
            (λ h. (_, refl, (λ _. h), (λ t. absurd (cc))))
            (λ _. (_, refl, (λ t. absurd (cc)), (λ _. told))))),
)
