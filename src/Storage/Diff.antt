-- ===== src/Storage/Diff.antt =====
-- `BlockDiffEngine` of crates/vpn/src/storage/diff.rs. `sha256` calls the crate `sha2` and is a
-- parameter; the printed form of a report is left out.
pub mod Complete
use mathlib.Core.Option
use lan_link.Prelude.{
  ℕ, zero, suc, ◌+◌, ◌*◌, ◌/◌, ◌%◌, List, [], ◌∷◌, length, get_elem?, replicate, Bool, true, false,
  not, Option, none, some, ltb, leb, ◌==◌, if◌then◌else◌, ite,
}
use lan_link.Prelude.Words.{u32_mod}
use lan_link.Prelude.Bytes.{bytes_eq}
use lan_link.Prelude.Result.{Result, ok, err}
use lan_link.Storage.Chunk.{Hash, ChunkMeta, FileManifest, chunk_at, num_chunks, default_chunk_size}

abbrev pub min_diff_chunk_size : ℕ
min_diff_chunk_size = 4096

pub data BlockDiffStatus : Type 0 where
  unchanged modified added deleted : BlockDiffStatus

pub record BlockDiff : Type 0 where
  pub index : ℕ
  pub offset : ℕ
  pub size : ℕ
  pub status : BlockDiffStatus
  pub new_hash : Hash
  pub old_hash : Hash

pub record FileDiff : Type 0 where
  pub file_name : List ℕ
  pub old_size : ℕ
  pub new_size : ℕ
  pub changed_blocks : List BlockDiff
  pub unchanged_count : ℕ
  pub files_match : Bool

pub record DiffReport : Type 0 where
  pub diff : FileDiff
  pub blocks_to_transfer : ℕ
  pub bytes_to_transfer : ℕ
  pub estimated_secs : ℕ

pub record BlockDiffEngine : Type 0 where
  pub chunk_size : ℕ

pub data DiffError : Type 0 where
  chunk_size_mismatch read_failed : DiffError

-- `[0u8; 32]`
abbrev pub no_hash : Hash
no_hash = replicate 32 0

abbrev pub max : ℕ → ℕ → ℕ
max a b = if ltb a b then b else a

unfoldable pub new : ℕ → BlockDiffEngine
new chunk_size = record { chunk_size = max chunk_size min_diff_chunk_size }

unfoldable pub default : BlockDiffEngine
default = record { chunk_size = default_chunk_size }

module _ (sha256 : List ℕ → Hash) where
  -- The difference in block `i`, or `none` where it is the same in both. There are `n` local blocks.
  unfoldable pub diff_block : ℕ → List ChunkMeta → List ℕ → ℕ → ℕ → Option BlockDiff
  diff_block cs remote_chunks local_bytes n i =
      let local_slice = chunk_at cs i local_bytes in
      let local_hash = sha256 local_slice in
      elim (get_elem? remote_chunks i) [
        | some r ↦
            if ltb i n
            then ite (bytes_eq local_hash r.hash) none (
                some (record {
                  index = i;
                  offset = r.offset;
                  size = length local_slice;
                  status = BlockDiffStatus.modified;
                  new_hash = local_hash;
                  old_hash = r.hash;
                }))
            else some (record {
              index = i;
              offset = r.offset;
              size = 0;
              status = BlockDiffStatus.deleted;
              new_hash = no_hash;
              old_hash = r.hash;
            })
        | none ↦ some (record {
          index = i;
          offset = i * cs;
          size = length local_slice;
          status = BlockDiffStatus.added;
          new_hash = local_hash;
          old_hash = no_hash;
        })
      ]

  -- The rounds of the loop that are left, from block `i` on, and what they add to the changed blocks
  -- and to the count of unchanged ones.
  unfoldable pub diff_loop : ℕ → List ChunkMeta → List ℕ → ℕ → ℕ → ℕ → List BlockDiff × ℕ
  diff_loop cs remote_chunks local_bytes n i zero = ([], 0)
  diff_loop cs remote_chunks local_bytes n i (suc rounds) =
      let rest = diff_loop cs remote_chunks local_bytes n (suc i) rounds in
      elim (diff_block cs remote_chunks local_bytes n i) [
        | none ↦ (rest.0, suc rest.1)
        | some block ↦ (block ∷ rest.0, rest.1)
      ]

  unfoldable pub diff_files : BlockDiffEngine → FileManifest → List ℕ → Result DiffError FileDiff
  unfolding diff_loop num_chunks
  diff_files e remote_manifest local_bytes =
      let remote_chunks = remote_manifest.chunks in
      let n = num_chunks sha256 e.chunk_size local_bytes in
      let max_index = max (length remote_chunks % u32_mod) (n % u32_mod) in
      let blocks = diff_loop e.chunk_size remote_chunks local_bytes n 0 max_index in
      if not (remote_manifest.chunk_size == e.chunk_size)
      then err DiffError.chunk_size_mismatch
      else ite (bytes_eq (sha256 local_bytes) remote_manifest.file_hash)
          (ok (record {
            file_name = [];
            old_size = remote_manifest.file_size;
            new_size = length local_bytes;
            changed_blocks = [];
            unchanged_count = length remote_chunks % u32_mod;
            files_match = true;
          }))
          (ok (record {
            file_name = [];
            old_size = remote_manifest.file_size;
            new_size = length local_bytes;
            changed_blocks = blocks.0;
            unchanged_count = blocks.1;
            files_match = false;
          }))

abbrev pub is_transferred : BlockDiffStatus → Bool
is_transferred BlockDiffStatus.unchanged = false
is_transferred BlockDiffStatus.modified = true
is_transferred BlockDiffStatus.added = true
is_transferred BlockDiffStatus.deleted = false

-- How many blocks are to transfer, and their bytes. The counts do not reach their widths, since the
-- blocks are those of a file in memory.
unfoldable pub transfer_of : List BlockDiff → ℕ × ℕ
transfer_of [] = (0, 0)
transfer_of (b ∷ blocks) =
    let rest = transfer_of blocks in
    if is_transferred b.status then (suc rest.0, b.size + rest.1) else rest

unfoldable pub generate_report : FileDiff → List ℕ → DiffReport
unfolding transfer_of
generate_report diff file_name =
    let t = transfer_of diff.changed_blocks in
    record {
      diff = record diff { file_name = file_name };
      blocks_to_transfer = t.0;
      bytes_to_transfer = t.1;
      estimated_secs =
          if ltb 0 t.1 then (if ltb (t.1 / 1_000_000) 1 then 1 else t.1 / 1_000_000) else 0;
    }
