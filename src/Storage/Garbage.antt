-- ===== src/Storage/Garbage.antt =====
-- `GarbageCollector` of crates/vpn/src/storage/gc.rs. A `HashSet` is a list without repetitions, of
-- which the order says nothing; so the files are gone through in the order of their map.
pub mod Unreferenced
pub mod Collect
use mathlib.Core.Option
use lan_link.Prelude.{
  ℕ, zero, suc, ◌+◌, ◌-◌, ◌*◌, ◌/◌, ◌%◌, List, [], ◌∷◌, length, Bool, true, false, Option, none,
  some, ltb, ◌==◌, if◌then◌else◌, ite,
}
use lan_link.Prelude.Words.{u64_mod}
use lan_link.Prelude.Bytes.{bytes_eq}
use lan_link.Storage.Chunk.{Hash, ChunkMeta, FileManifest}
use lan_link.Storage.Metadata.{BlockLocation, FileMetadata, MetadataEntry, MetadataStore, query}
use lan_link.Storage.Version.{
  VersionEntry, VersionManager, VersionError, list_versions, total_versions, prune_all_versions,
}
use lan_link.Prelude.Result.{Result}
use lan_link.Prelude.Locks.{Reentry, Outcome}

pub record StorageStats : Type 0 where
  pub total_files : ℕ
  pub total_blocks : ℕ
  pub total_bytes : ℕ
  pub versioned_files : ℕ
  pub total_versions : ℕ
  pub referenced_blocks : ℕ
  pub unreferenced_blocks : ℕ
  pub reclaimable_bytes : ℕ

pub record CollectResult : Type 0 where
  pub unreferenced_count : ℕ
  pub reclaimable_bytes : ℕ
  pub unreferenced_hashes : List Hash

unfoldable pub contains : Hash → List Hash → Bool
contains h [] = false
contains h (g ∷ set) = ite (bytes_eq h g) true (contains h set)

unfoldable pub insert : Hash → List Hash → List Hash
unfolding contains
insert h set = if contains h set then set else h ∷ set

unfoldable pub difference : List Hash → List Hash → List Hash
unfolding contains
difference [] other = []
difference (h ∷ set) other =
    let rest = difference set other in if contains h other then rest else h ∷ rest

-- The keys of a map.
unfoldable pub list_files {ℓ} : {V : Type ℓ} → List (List ℕ × V) → List (List ℕ)
list_files [] = []
list_files ((name, v) ∷ files) = name ∷ list_files files

unfoldable pub insert_chunks : List ChunkMeta → List Hash → List Hash
unfolding insert
insert_chunks [] set = set
insert_chunks (c ∷ chunks) set = insert_chunks chunks (insert c.hash set)

unfoldable pub insert_versions : List VersionEntry → List Hash → List Hash
unfolding insert_chunks
insert_versions [] set = set
insert_versions (v ∷ versions) set = insert_versions versions (insert_chunks v.manifest.chunks set)

unfoldable pub insert_files : VersionManager → List (List ℕ) → List Hash → List Hash
unfolding insert_versions
insert_files m [] set = set
insert_files m (name ∷ names) set =
    insert_files m names (insert_versions (list_versions m name) set)

unfoldable pub collect_referenced_blocks : VersionManager → List Hash
unfolding insert_files list_files
collect_referenced_blocks m = insert_files m (list_files m.store) []

unfoldable pub insert_blocks : List BlockLocation → List Hash → List Hash
unfolding insert
insert_blocks [] set = set
insert_blocks (b ∷ blocks) set = insert_blocks blocks (insert b.hash set)

-- The blocks of an entry, if it is there.
abbrev pub blocks_of : Option MetadataEntry → List BlockLocation
blocks_of none = []
blocks_of (some entry) = entry.meta.blocks

unfoldable pub insert_metadata : MetadataStore → List (List ℕ) → List Hash → List Hash
unfolding insert_blocks
insert_metadata s [] set = set
insert_metadata s (name ∷ names) set =
    insert_metadata s names (insert_blocks (blocks_of (query s name)) set)

unfoldable pub collect_all_metadata_blocks : MetadataStore → List Hash
unfolding insert_metadata list_files
collect_all_metadata_blocks s = insert_metadata s (list_files s) []

abbrev pub default_block_size : ℕ
default_block_size = 4 * 1024 * 1024

-- The bytes and the blocks of the files that have blocks.
unfoldable pub block_totals : MetadataStore → List (List ℕ) → ℕ → ℕ → ℕ × ℕ
block_totals s [] size blocks = (size, blocks)
block_totals s (name ∷ names) size blocks = elim (query s name) [
  | none ↦ block_totals s names size blocks
  | some entry ↦
      let n = length entry.meta.blocks in
      if ltb 0 n
      then block_totals s names ((size + entry.meta.file_size) % u64_mod) ((blocks + n) % u64_mod)
      else block_totals s names size blocks
]

unfoldable pub estimate_average_block_size : MetadataStore → ℕ
unfolding block_totals list_files
estimate_average_block_size s =
    let totals = block_totals s (list_files s) 0 0 in
    if totals.1 == 0 then default_block_size else totals.0 / totals.1

unfoldable pub collect : VersionManager → MetadataStore → CollectResult
unfolding collect_referenced_blocks collect_all_metadata_blocks difference
    estimate_average_block_size
collect version_manager metadata_store =
    let all_blocks = collect_all_metadata_blocks metadata_store in
    let unreferenced = difference all_blocks (collect_referenced_blocks version_manager) in
    let avg_block_size =
      if length all_blocks == 0
      then default_block_size
      else estimate_average_block_size metadata_store in
    record {
      unreferenced_count = length unreferenced;
      reclaimable_bytes = (length unreferenced * avg_block_size) % u64_mod;
      unreferenced_hashes = unreferenced;
    }

unfoldable pub prune_old_versions :
    Reentry → ℕ → VersionManager → ℕ → VersionManager × Outcome (Result VersionError ℕ)
prune_old_versions reentry thread version_manager keep_count =
    prune_all_versions reentry thread version_manager keep_count

-- The blocks and the bytes of the files.
unfoldable pub file_totals : MetadataStore → List (List ℕ) → ℕ → ℕ → ℕ × ℕ
file_totals s [] blocks bytes = (blocks, bytes)
file_totals s (name ∷ names) blocks bytes = elim (query s name) [
  | none ↦ file_totals s names blocks bytes
  | some entry ↦
      file_totals s names ((blocks + length entry.meta.blocks) % u64_mod)
        ((bytes + entry.meta.file_size) % u64_mod)
]

unfoldable pub storage_stats : VersionManager → MetadataStore → StorageStats
unfolding file_totals list_files collect_referenced_blocks collect_all_metadata_blocks
    estimate_average_block_size
storage_stats version_manager metadata_store =
    let files = list_files metadata_store in
    let totals = file_totals metadata_store files 0 0 in
    let all_blocks = collect_all_metadata_blocks metadata_store in
    let referenced_blocks = length (collect_referenced_blocks version_manager) in
    let unreferenced_blocks = length all_blocks - referenced_blocks in
    let avg_block_size =
      if length all_blocks == 0 then 0 else estimate_average_block_size metadata_store in
    record {
      total_files = length files;
      total_blocks = totals.0;
      total_bytes = totals.1;
      versioned_files = length (list_files version_manager.store);
      total_versions = total_versions version_manager.store;
      referenced_blocks = referenced_blocks;
      unreferenced_blocks = unreferenced_blocks;
      reclaimable_bytes = (unreferenced_blocks * avg_block_size) % u64_mod;
    }
