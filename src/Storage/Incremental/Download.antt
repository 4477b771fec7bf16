-- ===== src/Storage/Incremental/Download.antt =====
-- What a download restores (crates/vpn/src/storage/incremental.rs).
use mathlib.Core.Option
use mathlib.Core.Option.{some-injective}
use lan_link.Prelude.{
  ℕ, ◌+◌, ◌%◌, ◌<◌, ◌≤◌, ◌≡◌, refl, ap, ◌∙◌, subst, List, [], length, Option, none, some, ◌==◌,
  arith,
}
use lan_link.Prelude.Words.{u32_mod}
use lan_link.Prelude.Bytes.{bytes_eq}
use lan_link.Prelude.Assoc
use lan_link.Prelude.Assoc.{lookup-insert_self, lookup-insert_ne, lookup-remove_ne}
use lan_link.Prelude.Result.{ok, on_ok}
use lan_link.Storage.Chunk.{
  Hash, FileManifest, Chunker, chunk_at, chunk_loop, num_chunks, chunk_data, reassemble,
}
use lan_link.Storage.Chunk.Reassembly.{reassemble-chunk_data}
use lan_link.Storage.Diff.{diff_files}
use lan_link.Storage.Diff.Complete.{diff_files_lem}
use lan_link.Storage.Incremental.{
  SyncResult, SyncStateEntry, upsert, Peer, IncrementalSync, Blocks, request_remote_manifest,
  keep_matching, missing, local_blocks, fetch, in_order, restore, download_file,
}
use lan_link.Storage.Incremental.Blocks.{
  length-chunk_loop, Has, IsRight, keep_matching-IsRight, missing-In, missing-All, fetch-Fetched,
  in_order-pieces,
}

-- What a node with the file answers.
pub record IsHonest (sha256 : List ℕ → Hash) (peer : Peer) (c : Chunker) (path file : List ℕ)
    : Type 0 where
  pub sends_manifest : peer.manifest path ≡ ok (some (chunk_data sha256 c file).0)
  pub sends_block :
      (j : ℕ)
      → j < num_chunks sha256 c.chunk_size file
      → peer.block path j ≡ ok (chunk_at c.chunk_size j file)

module _ (sha256 : List ℕ → Hash) where
  -- No chunk of the local file differs from that of the other file at its place and has its hash.
  abbrev pub NoCollision : ℕ → List ℕ → Option (List ℕ) → Type 0
  NoCollision cs file none = Unit
  NoCollision cs file (some bytes) =
      (num_chunks sha256 cs bytes < u32_mod)
      × ((j : ℕ)
          → sha256 (chunk_at cs j file) ≡ sha256 (chunk_at cs j bytes)
          → chunk_at cs j bytes ≡ chunk_at cs j file)

  local_blocks-IsRight :
      (s : IncrementalSync) (file : List ℕ) (local_file : Option (List ℕ))
      → s.chunker.chunk_size ≡ s.diff_engine.chunk_size
      → num_chunks sha256 s.chunker.chunk_size file < u32_mod
      → NoCollision s.chunker.chunk_size file local_file
      → (have : Blocks) × (local_blocks sha256 s (chunk_data sha256 s.chunker file).0 local_file
          ≡ ok have)
        × IsRight sha256 s.chunker.chunk_size file
            (num_chunks sha256 s.chunker.chunk_size file)
            have
  unfolding local_blocks
  local_blocks-IsRight s file none same small free =
      ([], refl, unfold Assoc.lookup in (λ j c e. absurd (cc)))
  local_blocks-IsRight s file (some bytes) same small free =
      let cs = s.chunker.chunk_size in
      let n = num_chunks sha256 cs file in
      let m = (chunk_data sha256 s.chunker file).0 in
      let size : length m.chunks ≡ n =
        unfold chunk_data in (length-chunk_loop sha256 cs 0 n file) in
      let few : num_chunks sha256 s.diff_engine.chunk_size bytes < u32_mod =
        subst (λ k. num_chunks sha256 k bytes < u32_mod) same free.0 in
      let aligned : m.chunk_size ≡ s.diff_engine.chunk_size = unfold chunk_data in same in
      let (d, e, _, _) =
        (diff_files_lem sha256 s.diff_engine m bytes (omega (arith, size, small)) few).1 aligned in
      (
        keep_matching sha256 m.chunks 0 (chunk_data sha256 s.chunker bytes).1 [],
        on_ok (diff_files sha256 s.diff_engine m bytes) d _ _ e,
        unfold chunk_data in
            (keep_matching-IsRight sha256 cs file n bytes 0 (num_chunks sha256 cs bytes) [] small
              free.1 (unfold Assoc.lookup in (λ j c e. absurd (cc)))),
      )

  restore-file :
      (s : IncrementalSync) (peer : Peer) (path file : List ℕ) (local_file : Option (List ℕ))
      → 0 < s.chunker.chunk_size
      → s.chunker.chunk_size ≡ s.diff_engine.chunk_size
      → num_chunks sha256 s.chunker.chunk_size file < u32_mod
      → IsHonest sha256 peer s.chunker path file
      → NoCollision s.chunker.chunk_size file local_file
      → (need : List ℕ) × (bytes : ℕ) × (restore sha256 s peer path
            (chunk_data sha256 s.chunker file).0
            local_file
          ≡ ok (file, need, bytes))
  unfolding restore
  restore-file s peer path file local_file pos same small honest free =
      let cs = s.chunker.chunk_size in
      let n = num_chunks sha256 cs file in
      let m = (chunk_data sha256 s.chunker file).0 in
      let size : length m.chunks ≡ n =
        unfold chunk_data in (length-chunk_loop sha256 cs 0 n file) in
      let total = length m.chunks % u32_mod in
      let all_ : total ≡ n = omega (arith, size, small) in
      let (have, e₁, right) = local_blocks-IsRight s file local_file same small free in
      let need = missing sha256 have 0 total in
      let (blocks, bytes, e₂, kept) =
        fetch-Fetched sha256 cs file n (peer.block path) need have honest.sends_block
          (missing-All sha256 cs file n have 0 total (omega (arith, all_))) in
      let full : (j : ℕ) → 0 ≤ j → j < 0 + total → Has sha256 cs file n blocks j =
        λ j a b. kept j (missing-In sha256 cs file n have 0 total j right a b) in
      let ordered : in_order sha256 blocks 0 total ≡ ok (chunk_data sha256 s.chunker file).1 =
        in_order-pieces sha256 cs file n blocks 0 total full
        ∙ (unfold chunk_data in (ap (λ k. ok (chunk_loop sha256 cs 0 k file).1) all_)) in
      (
        need,
        bytes,
        on_ok (local_blocks sha256 s m local_file) have _ _ e₁
            ∙ on_ok (fetch sha256 (peer.block path) need have) (blocks, bytes) _ _ e₂
            ∙ on_ok (in_order sha256 blocks 0 total) _ _ _ ordered
            ∙ on_ok (reassemble sha256 m (chunk_data sha256 s.chunker file).1) file _ _
                (reassemble-chunk_data sha256 s.chunker file pos),
      )

  downloads :
      (s : IncrementalSync) (peer : Peer) (path name : List ℕ) (m : FileManifest)
      (local_file : Option (List ℕ)) (now : ℕ) (file need : List ℕ) (bytes : ℕ)
      → request_remote_manifest s peer path ≡ ok m
      → restore sha256 s peer path m local_file ≡ ok (file, need, bytes)
      → download_file sha256 s peer path name local_file now ≡ (
        record s { state = upsert s.state name m.file_hash m.file_size now },
        some file,
        ok (record {
          total_blocks = length m.chunks % u32_mod;
          transferred_blocks = length need % u32_mod;
          bytes_transferred = bytes;
          already_in_sync = length need == 0;
        }),
      )
  unfolding download_file
  downloads s peer path name m local_file now file need bytes e₁ e₂ =
      on_ok (request_remote_manifest s peer path) m _ _ e₁
      ∙ on_ok (restore sha256 s peer path m local_file) (file, need, bytes) _ _ e₂

  -- A download from a node that has the file leaves exactly that file, whatever the local file was
  -- before, and succeeds: if both cut in chunks of the same positive size, there are fewer than
  -- 2 ^ 32 of them in either file, and no chunk of the local file has the hash of another one at the
  -- same place of the other file. The state then has the hash of the file.
  pub download_file-restores :
      (s : IncrementalSync) (peer : Peer) (path name file : List ℕ) (local_file : Option (List ℕ))
      (now : ℕ)
      → 0 < s.chunker.chunk_size
      → s.chunker.chunk_size ≡ s.diff_engine.chunk_size
      → num_chunks sha256 s.chunker.chunk_size file < u32_mod
      → IsHonest sha256 peer s.chunker path file
      → NoCollision s.chunker.chunk_size file local_file
      → let next = download_file sha256 s peer path name local_file now in
        (next.1 ≡ some file)
        × (Option.map SyncStateEntry.last_synced_hash (Assoc.lookup bytes_eq name next.0.state)
            ≡ some (sha256 file))
        × ((r : SyncResult) × (next.2 ≡ ok r)
            × (r.total_blocks ≡ num_chunks sha256 s.chunker.chunk_size file))
  download_file-restores s peer path name file local_file now pos same small honest free =
      let cs = s.chunker.chunk_size in
      let m = (chunk_data sha256 s.chunker file).0 in
      let size : length m.chunks ≡ num_chunks sha256 cs file =
        unfold chunk_data in (length-chunk_loop sha256 cs 0 (num_chunks sha256 cs file) file) in
      let (need, bytes, e) = restore-file s peer path file local_file pos same small honest free in
      let asked : request_remote_manifest s peer path ≡ ok m =
        unfold request_remote_manifest in
        (rw (honest.sends_manifest, request_remote_manifest) refl) in
      let done = downloads s peer path name m local_file now file need bytes asked e in
      rw done (
        refl,
        unfold upsert in
            (ap (Option.map SyncStateEntry.last_synced_hash)
              (lookup-insert_self bytes_eq name _ s.state))
            ∙ unfold chunk_data in refl,
        (_, refl, omega (arith, size, small)),
      )
