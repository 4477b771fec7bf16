-- ===== src/Storage/Chunk.antt =====
-- `Chunker` of crates/vpn/src/storage/chunk.rs. `sha256` calls the crate `sha2` and is a parameter;
-- lengths are those of a 64-bit target, and the texts of the errors are left out.
pub mod Reassembly
pub mod Tiling
use mathlib.Core.Option
use lan_link.Prelude.{
  ℕ, zero, suc, ◌+◌, ◌-◌, ◌*◌, ◌/◌, ◌%◌, min, List, [], ◌∷◌, ◌++◌, length, take, drop, Bool, true,
  false, not, ◌==◌, if◌then◌else◌, ite,
}
use lan_link.Prelude.Words.{u32_mod}
use lan_link.Prelude.Bytes.{bytes_eq}
use lan_link.Prelude.Result.{Result, ok, err}

abbrev pub default_chunk_size : ℕ
default_chunk_size = 4 * 1024 * 1024

abbrev pub Hash : Type 0
Hash = List ℕ

pub record ChunkMeta : Type 0 where
  pub hash : Hash
  pub index : ℕ
  pub offset : ℕ
  pub size : ℕ

pub record FileManifest : Type 0 where
  pub file_hash : Hash
  pub file_size : ℕ
  pub chunks : List ChunkMeta
  pub chunk_size : ℕ

pub record Chunker : Type 0 where
  pub chunk_size : ℕ

unfoldable pub new : Chunker
new = record { chunk_size = default_chunk_size }

unfoldable pub with_chunk_size : ℕ → Chunker
with_chunk_size size = record { chunk_size = if size == 0 then default_chunk_size else size }

pub data ReassembleError : Type 0 where
  count_mismatch size_mismatch hash_mismatch : ReassembleError

-- `&data[start..end]`.
abbrev pub slice : ℕ → ℕ → List ℕ → List ℕ
slice first last bytes = take (last - first) (drop first bytes)

abbrev pub chunk_at : ℕ → ℕ → List ℕ → List ℕ
chunk_at chunk_size i bytes =
    slice (i * chunk_size) (min (i * chunk_size + chunk_size) (length bytes)) bytes

module _ (sha256 : List ℕ → Hash) where
  -- The loop over the chunks from `i` on, of which there are `n`.
  unfoldable pub chunk_loop : ℕ → ℕ → ℕ → List ℕ → List ChunkMeta × List (List ℕ)
  chunk_loop chunk_size i zero bytes = ([], [])
  chunk_loop chunk_size i (suc n) bytes =
      let piece = chunk_at chunk_size i bytes in
      let (metas, pieces) = chunk_loop chunk_size (suc i) n bytes in
      (
        record {
          hash = sha256 piece;
          index = i % u32_mod;
          offset = i * chunk_size;
          size = length piece;
        }
            ∷ metas,
        piece ∷ pieces,
      )

  unfoldable pub num_chunks : ℕ → List ℕ → ℕ
  num_chunks chunk_size [] = 0
  num_chunks chunk_size (b ∷ bytes) = (length (b ∷ bytes) + chunk_size - 1) / chunk_size

  unfoldable pub chunk_data : Chunker → List ℕ → FileManifest × List (List ℕ)
  chunk_data c bytes =
      let (metas, pieces) = chunk_loop c.chunk_size 0 (num_chunks c.chunk_size bytes) bytes in
      (
        record {
          file_hash = sha256 bytes;
          file_size = length bytes;
          chunks = metas;
          chunk_size = c.chunk_size;
        },
        pieces,
      )

  -- No chunk differs in size from its entry.
  unfoldable pub sizes_match : List ChunkMeta → List (List ℕ) → Bool
  sizes_match [] pieces = true
  sizes_match (m ∷ metas) [] = true
  sizes_match (m ∷ metas) (p ∷ pieces) =
      if not (length p == m.size) then false else sizes_match metas pieces

  unfoldable pub concat : List (List ℕ) → List ℕ
  concat [] = []
  concat (p ∷ pieces) = p ++ concat pieces

  unfoldable pub reassemble : FileManifest → List (List ℕ) → Result ReassembleError (List ℕ)
  reassemble m pieces =
      if not (length pieces == length m.chunks)
      then err ReassembleError.count_mismatch
      else if not (sizes_match m.chunks pieces)
      then err ReassembleError.size_mismatch
      else ite (bytes_eq (sha256 (concat pieces)) m.file_hash) (ok (concat pieces))
          (err ReassembleError.hash_mismatch)

  unfoldable pub verify_chunk : ChunkMeta → List ℕ → Bool
  verify_chunk m bytes = ite (bytes_eq (sha256 bytes) m.hash) true false

  unfoldable pub verify_file : FileManifest → List ℕ → Bool
  verify_file m bytes = ite (bytes_eq (sha256 bytes) m.file_hash) true false
