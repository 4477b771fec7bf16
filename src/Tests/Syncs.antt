-- ===== src/Tests/Syncs.antt =====
-- Diffs and downloads of small files, with a hash that keeps all bytes.
use mathlib.Core.Option
use lan_link.Prelude.{ℕ, ◌≡◌, ◌≢◌, refl, sym, List, [], ◌∷◌, true, false, some, arith, ℕ_discrete}
use lan_link.Prelude.Bytes.{both_eq, bytes_eq}
use lan_link.Prelude.Assoc
use lan_link.Prelude.Result.{ok, err}
use lan_link.Storage.Chunk.{
  Hash, FileManifest, Chunker, chunk_at, chunk_loop, num_chunks, chunk_data, sizes_match, concat,
  reassemble,
}
use lan_link.Storage.Diff.{
  BlockDiffEngine, FileDiff, DiffError, diff_block, diff_loop, diff_files, transfer_of,
  generate_report,
}
use lan_link.Storage.Diff.Complete.{Tells, diff_files_lem}
use lan_link.Storage.Incremental.{
  IncrementalSync, Peer, SyncResult, SyncStateEntry, keep_matching, missing, local_blocks, fetch,
  in_order, restore, request_remote_manifest, upsert, download_file, send_blocks, sync_file,
}
use lan_link.Storage.Incremental.Download.{download_file-restores}

program : Unit {0}
unfolding chunk_loop num_chunks chunk_data sizes_match concat reassemble both_eq bytes_eq ℕ_discrete
    diff_block diff_loop diff_files transfer_of generate_report keep_matching missing local_blocks
    fetch in_order restore request_remote_manifest upsert download_file send_blocks sync_file
    Assoc.insert Assoc.lookup Assoc.remove
program = tt

abbrev id : List ℕ → Hash
id bytes = bytes

abbrev chunker : Chunker
chunker = record { chunk_size = 2 }

abbrev engine : BlockDiffEngine
engine = record { chunk_size = 2 }

abbrev file : List ℕ
file = 1 ∷ 2 ∷ 3 ∷ 4 ∷ 5 ∷ []

abbrev other : List ℕ
other = 1 ∷ 2 ∷ 9 ∷ 4 ∷ []

abbrev manifest : FileManifest
manifest = (chunk_data id chunker file).0

diff_files_lem_example :
    (manifest.chunk_size ≢ engine.chunk_size
      → diff_files id engine manifest other ≡ err DiffError.chunk_size_mismatch)
    × (manifest.chunk_size ≡ engine.chunk_size
        → (d : FileDiff) × (diff_files id engine manifest other ≡ ok d)
          × (d.files_match ≡ true → id other ≡ manifest.file_hash)
          × (d.files_match ≡ false → Tells id engine.chunk_size manifest other d))
unfolding program
diff_files_lem_example = diff_files_lem id engine manifest other (omega arith) (omega arith)

abbrev sync : IncrementalSync
sync = record { chunker = chunker; diff_engine = engine; state = [] }

abbrev peer : Peer
peer = record {
  manifest = λ path. ok (some manifest);
  block = λ path j. ok (chunk_at 2 j file);
  takes_block = λ path j chunk. true;
  takes_manifest = λ path m. true;
}

-- The first block is there already; the others are asked for.
downloaded :
    (download_file id sync peer [] [] (some other) 7).2
    ≡ ok (record {
      total_blocks = 3;
      transferred_blocks = 2;
      bytes_transferred = 3;
      already_in_sync = false;
    })
unfolding program
downloaded = refl

-- An upload sends the blocks that differ.
uploaded :
    (sync_file id sync peer [] (some other) 7).1
    ≡ ok (record {
      total_blocks = 2;
      transferred_blocks = 1;
      bytes_transferred = 2;
      already_in_sync = false;
    })
unfolding program
uploaded = refl

download_file-restores_example :
    ((download_file id sync peer [] [] (some other) 7).1 ≡ some file)
    × (Option.map SyncStateEntry.last_synced_hash
          (Assoc.lookup bytes_eq [] (download_file id sync peer [] [] (some other) 7).0.state)
        ≡ some (id file))
    × ((r : SyncResult) × ((download_file id sync peer [] [] (some other) 7).2 ≡ ok r)
        × (r.total_blocks ≡ num_chunks id chunker.chunk_size file))
unfolding program
download_file-restores_example =
    download_file-restores id sync peer [] [] file (some other) 7 (omega arith) refl (omega arith)
      (record { sends_manifest = refl; sends_block = λ j h. refl }) (omega arith, λ j e. sym e)
