-- ===== src/Tests/Stored.antt =====
-- Versions, metadata and garbage of small stores, with a hasher that takes the first byte.

use lan_link.Prelude.{
  ℕ, ◌<◌, ◌≤◌, ◌≡◌, ◌↔◌, refl, List, [], ◌∷◌, false, none, some, arith, ℕ_discrete,
}
use lan_link.Prelude.Bytes.{both_eq, bytes_eq}
use lan_link.Prelude.Assoc
use lan_link.Prelude.Result.{ok, err}
use lan_link.Prelude.Locks.{RwLock, Reentry, Outcome, acquire}
use lan_link.Storage.Chunk.{Hash, ChunkMeta, FileManifest}
use lan_link.Storage.Metadata.{BlockLocation, MetadataEntry, MetadataStore, query, all_entries}
use lan_link.Storage.Metadata.Merging.{sync_from}
use lan_link.Storage.Metadata.Stores.{IsTime, IsStore, Change, changes, changes-IsStore}
use lan_link.Storage.Metadata.Sync.{hash_in, sync_from-agree}
use lan_link.Storage.Metadata.Stale.{sync_from-stale}
use lan_link.Storage.Timestamps.{
  version_id_of, format_timestamp, padded, zeros, decimal, civil_date_from_days,
}
use lan_link.Storage.Version.{
  VersionEntry, FileVersions, VersionManager, VersionError, push, prune, save_changed,
  save_if_dirty, with_snapshot, new, create_snapshot, list_versions, prune_versions,
  restore_version, latest_version,
}
use lan_link.Storage.Version
use lan_link.Storage.Version.Snapshots.{Snapshot, create_snapshots, restore-create_snapshots}
use lan_link.Storage.Version.Deadlock.{prune_versions-blocks}
use lan_link.Storage.Garbage.{CollectResult, StorageStats, collect, storage_stats, blocks_of}
use lan_link.Storage.Garbage
use lan_link.Storage.Garbage.Unreferenced.{In, chunk_hashes, block_hashes}
use lan_link.Storage.Garbage.Collect.{collect-exact}

abbrev file : List ℕ
file = 102 ∷ []

abbrev other : List ℕ
other = 103 ∷ []

abbrev chunk : ℕ → ChunkMeta
chunk h = record { hash = h ∷ []; index = 0; offset = 0; size = 1 }

abbrev manifest : ℕ → FileManifest
manifest h = record { file_hash = h ∷ []; file_size = 1; chunks = chunk h ∷ []; chunk_size = 1 }

-- 2023-11-14 22:13:20.
format_timestamp_known :
    format_timestamp 1700000000
    ≡ 50 ∷ 48 ∷ 50 ∷ 51 ∷ 49 ∷ 49 ∷ 49 ∷ 52 ∷ 50 ∷ 50 ∷ 49 ∷ 51 ∷ 50 ∷ 48 ∷ []
unfolding format_timestamp padded zeros decimal civil_date_from_days
format_timestamp_known = refl

abbrev snapshot : List ℕ → ℕ → Snapshot
snapshot name h = record {
  thread = 0;
  file_name = name;
  manifest = manifest h;
  annotation = [];
  now = 1700000000;
}

abbrev later : List Snapshot
later = snapshot file 2 ∷ snapshot other 3 ∷ []

restore-create_snapshots_example :
    restore_version
      (create_snapshots Reentry.deadlocks
        (create_snapshot Reentry.deadlocks 0 Version.new file (manifest 1) [] 1700000000).0
        later)
      file
      (version_id_of 1700000000 0)
    ≡ ok (manifest 1)
unfolding Version.new create_snapshot save_changed save_if_dirty with_snapshot acquire
restore-create_snapshots_example =
    restore-create_snapshots Reentry.deadlocks Version.new (snapshot file 1) later
      (version_id_of 1700000000 0) (omega arith) refl

abbrev entry : VersionEntry
entry = record {
  version_id = 49 ∷ [];
  timestamp = [];
  unix_secs = 0;
  seq = 0;
  manifest = manifest 1;
  annotation = [];
}

abbrev history : FileVersions
history = record { file_name = file; versions = entry ∷ entry ∷ [] }

abbrev manager : VersionManager
manager = record { store = (file, history) ∷ []; seq_counter = 2; dirty = RwLock.free }

prune_versions-blocks_example :
    (2 ≤ 1 → (prune_versions Reentry.unwinds 0 manager file 1).1 ≡ Outcome.returns (ok 0))
    × (1 < 2
        → ((prune_versions Reentry.unwinds 0 manager file 1).1 ≡ Outcome.panics)
          × (list_versions (prune_versions Reentry.unwinds 0 manager file 1).0 file ≡ entry ∷ [])
          × ((g : List ℕ) (m : FileManifest) (annotation : List ℕ) (now : ℕ)
              → (create_snapshot Reentry.unwinds 1
                  (prune_versions Reentry.unwinds 0 manager file 1).0
                  g
                  m
                  annotation
                  now).1
                ≡ Outcome.returns (err VersionError.lock_poisoned)))
unfolding Assoc.lookup bytes_eq both_eq ℕ_discrete
prune_versions-blocks_example =
    prune_versions-blocks Reentry.unwinds 0 1 manager file history 1 refl refl
      (λ e. absurd (omega (arith, e)))

abbrev first_byte : List ℕ → Hash → ℕ
first_byte name [] = 0
first_byte name (b ∷ bytes) = b

abbrev block : ℕ → BlockLocation
block h = record { hash = h ∷ []; index = 0; nodes = []; last_synced = 0 }

abbrev entry_at : ℕ → ℕ → MetadataEntry
entry_at h now = record {
  meta = record {
    name = file;
    file_hash = h ∷ [];
    file_size = 1;
    blocks = block h ∷ [];
    created_at = now;
    updated_at = now;
    source_node = [];
    encrypted = false;
  };
  manifest = none;
}

abbrev store_at : ℕ → ℕ → MetadataStore
store_at h now = (file, entry_at h now) ∷ []

store_at-IsStore : (h now : ℕ) → IsTime now → IsStore (store_at h now)
unfolding Assoc.lookup
store_at-IsStore h now t = ((refl, t), refl, tt)

abbrev calls : List (Change × ℕ)
calls =
    (Change.registers file (7 ∷ []) 1 none (block 7 ∷ []) [], 100)
    ∷ (Change.adds_node file 0 other, 101)
    ∷ (Change.syncs (entry_at 8 90 ∷ []), 102)
    ∷ (Change.encrypts file, 103)
    ∷ []

changes-IsStore_example : IsStore (changes first_byte [] calls)
changes-IsStore_example =
    changes-IsStore first_byte calls []
      (omega arith, (omega arith, (omega arith, (omega arith, tt)))) tt

sync_from-agree_example :
    hash_in
      (query (sync_from first_byte (store_at 1 100) (all_entries (store_at 2 103)) 200).0 file)
    ≡ hash_in
        (query (sync_from first_byte (store_at 2 103) (all_entries (store_at 1 100)) 201).0 file)
unfolding query Assoc.lookup bytes_eq both_eq ℕ_discrete
sync_from-agree_example =
    sync_from-agree first_byte (store_at 1 100) (store_at 2 103) 200 201 file
      (store_at-IsStore 1 100 (omega arith)) (store_at-IsStore 2 103 (omega arith))
      (λ n m e. absurd (omega (arith, e)))

sync_from-stale_example :
    (hash_in
        (query (sync_from first_byte (store_at 2 110) (all_entries (store_at 1 100)) 300).0 file)
      ≡ some (2 ∷ []))
    × (hash_in (
          query
            (sync_from first_byte
              (store_at 2 110)
              (all_entries (sync_from first_byte [] (all_entries (store_at 1 100)) 200).0)
              300).0
            file)
        ≡ some (1 ∷ []))
unfolding query Assoc.lookup bytes_eq both_eq ℕ_discrete
sync_from-stale_example =
    sync_from-stale first_byte (store_at 1 100) [] (store_at 2 110) file (entry_at 1 100)
      (entry_at 2 110) 200 300 (store_at-IsStore 1 100 (omega arith)) tt
      (store_at-IsStore 2 110 (omega arith)) refl refl refl (omega arith) (omega arith)
      (omega arith)

collect-exact_example : In (7 ∷ []) (collect manager (store_at 7 100)).unreferenced_hashes ↔ (
    ((name : List ℕ) × In (7 ∷ []) (block_hashes (blocks_of (query (store_at 7 100) name))))
    × ((name : List ℕ) (v : VersionEntry)
        → In v (list_versions manager name)
        → ¬ In (7 ∷ []) (chunk_hashes v.manifest.chunks)))
collect-exact_example = collect-exact manager (store_at 7 100) (7 ∷ [])

-- A version of a file that is not in the metadata hides an unreferenced block from the statistics.
storage_stats_hides :
    ((collect manager (store_at 7 100)).unreferenced_count ≡ 1)
    × ((storage_stats manager (store_at 7 100)).unreferenced_blocks ≡ 0)
unfolding collect storage_stats list_versions query Garbage.collect_referenced_blocks
    Garbage.collect_all_metadata_blocks Garbage.difference Garbage.insert_files
    Garbage.insert_versions Garbage.insert_chunks Garbage.insert_blocks Garbage.insert_metadata
    Garbage.insert Garbage.contains Garbage.list_files Assoc.lookup bytes_eq both_eq ℕ_discrete
storage_stats_hides = (refl, refl)
