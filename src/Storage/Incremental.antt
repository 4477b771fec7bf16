-- ===== src/Storage/Incremental.antt =====
-- `IncrementalSync` and its `SyncStateStore` of crates/vpn/src/storage/incremental.rs. A name is its
-- bytes. The file system is the bytes of the local file, if it is there; what the other node answers
-- is the record `Peer`. A method takes the time of the system clock; the seconds that it reports are
-- left out. An index that is out of range, where the source panics, is the error `missing_block`.
pub mod Blocks
pub mod Download
use mathlib.Core.Option
use lan_link.Prelude.{
  ℕ, zero, suc, ◌+◌, ◌-◌, ◌*◌, ◌%◌, List, [], ◌∷◌, length, get_elem?, Bool, true, false, not,
  Option, none, some, ltb, ◌==◌, if◌then◌else◌, ite, ℕ_discrete,
}
use lan_link.Prelude.Words.{u32_mod}
use lan_link.Prelude.Bytes.{bytes_eq}
use lan_link.Prelude.Assoc
use lan_link.Prelude.Result.{Result, ok, err}
use lan_link.Storage.Chunk.{
  Hash, ChunkMeta, FileManifest, Chunker, ReassembleError, chunk_data, reassemble,
  default_chunk_size,
}
use lan_link.Storage.Chunk
use lan_link.Storage.Diff.{
  BlockDiffEngine, BlockDiff, BlockDiffStatus, FileDiff, DiffError, diff_files, is_transferred, max,
  no_hash,
}
use lan_link.Storage.Diff

pub data SyncError : Type 0 where
  read_failed request_failed send_failed diff_failed missing_block reassembly_failed : SyncError

pub record SyncResult : Type 0 where
  pub total_blocks : ℕ
  pub transferred_blocks : ℕ
  pub bytes_transferred : ℕ
  pub already_in_sync : Bool

pub record SyncStateEntry : Type 0 where
  pub file_name : List ℕ
  pub last_synced_hash : Hash
  pub last_synced_at : ℕ
  pub last_size : ℕ

abbrev pub SyncStateStore : Type 0
SyncStateStore = List (List ℕ × SyncStateEntry)

unfoldable pub upsert : SyncStateStore → List ℕ → Hash → ℕ → ℕ → SyncStateStore
upsert s file_name hash size now =
    Assoc.insert bytes_eq file_name
      (record {
        file_name = file_name;
        last_synced_hash = hash;
        last_synced_at = now;
        last_size = size;
      })
      s

-- The answers of the other node, and whether a message to it is sent.
pub record Peer : Type 0 where
  pub manifest : List ℕ → Result SyncError (Option FileManifest)
  pub block : List ℕ → ℕ → Result SyncError (List ℕ)
  pub takes_block : List ℕ → ℕ → List ℕ → Bool
  pub takes_manifest : List ℕ → FileManifest → Bool

pub record IncrementalSync : Type 0 where
  pub chunker : Chunker
  pub diff_engine : BlockDiffEngine
  pub state : SyncStateStore

unfoldable pub new : IncrementalSync
new = record { chunker = Chunk.new; diff_engine = Diff.default; state = [] }

unfoldable pub with_chunk_size : ℕ → IncrementalSync
with_chunk_size chunk_size =
    let cs = max chunk_size 4096 in
    record { chunker = Chunk.with_chunk_size cs; diff_engine = Diff.new cs; state = [] }

-- A node that has no version of the file has an empty manifest.
unfoldable pub request_remote_manifest :
    IncrementalSync → Peer → List ℕ → Result SyncError FileManifest
request_remote_manifest s peer file_name = elim (peer.manifest file_name) [
  | err e ↦ err e
  | ok none ↦ ok (record {
    file_hash = no_hash;
    file_size = 0;
    chunks = [];
    chunk_size = s.chunker.chunk_size;
  })
  | ok (some m) ↦ ok m
]

-- The blocks by their index.
abbrev pub Blocks : Type 0
Blocks = List (ℕ × List ℕ)

module _ (sha256 : List ℕ → Hash) where
  -- The local chunks from `i` on: those that have the hash of the remote one are kept.
  unfoldable pub keep_matching : List ChunkMeta → ℕ → List (List ℕ) → Blocks → Blocks
  keep_matching remote_chunks i [] have = have
  keep_matching remote_chunks i (chunk ∷ chunks) have =
      keep_matching remote_chunks (suc i) chunks (elim (get_elem? remote_chunks i) [
        | none ↦ have
        | some r ↦
            ite (bytes_eq r.hash (sha256 chunk)) (Assoc.insert ℕ_discrete (i % u32_mod) chunk have)
              have
      ])

  -- The indices from `i` on, `n` of them, that are not there.
  unfoldable pub missing : Blocks → ℕ → ℕ → List ℕ
  missing have i zero = []
  missing have i (suc n) =
      let rest = missing have (suc i) n in
      elim (Assoc.lookup ℕ_discrete i have) [ none ↦ i ∷ rest | some chunk ↦ rest ]

  unfoldable pub local_blocks :
      IncrementalSync → FileManifest → Option (List ℕ) → Result SyncError Blocks
  unfolding keep_matching
  local_blocks s remote_manifest none = ok []
  local_blocks s remote_manifest (some local_bytes) =
      elim (diff_files sha256 s.diff_engine remote_manifest local_bytes) [
        | err e ↦ err SyncError.diff_failed
        | ok diff ↦
            ok (
              keep_matching remote_manifest.chunks 0 (chunk_data sha256 s.chunker local_bytes).1 [])
      ]

  -- The blocks with those that are asked for, and the bytes that come.
  unfoldable pub fetch :
      (ℕ → Result SyncError (List ℕ)) → List ℕ → Blocks → Result SyncError (Blocks × ℕ)
  fetch request [] blocks = ok (blocks, 0)
  fetch request (i ∷ need) blocks = elim (request i) [
    | err e ↦ err e
    | ok chunk ↦ elim (fetch request need (Assoc.insert ℕ_discrete i chunk blocks)) [
      | err e ↦ err e
      | ok (all, bytes) ↦ ok (all, length chunk + bytes)
    ]
  ]

  -- The blocks from `i` on, `n` of them, in order.
  unfoldable pub in_order : Blocks → ℕ → ℕ → Result SyncError (List (List ℕ))
  in_order blocks i zero = ok []
  in_order blocks i (suc n) = elim (Assoc.lookup ℕ_discrete i blocks) [
    | none ↦ err SyncError.missing_block
    | some chunk ↦ elim (in_order (Assoc.remove ℕ_discrete i blocks) (suc i) n) [
      | err e ↦ err e
      | ok chunks ↦ ok (chunk ∷ chunks)
    ]
  ]

  -- The bytes that are written to the local file, the blocks that were asked for, and their bytes.
  unfoldable pub restore :
      IncrementalSync
      → Peer
      → List ℕ
      → FileManifest
      → Option (List ℕ)
      → Result SyncError (List ℕ × List ℕ × ℕ)
  unfolding local_blocks missing fetch in_order
  restore s peer remote_path remote_manifest local_file =
      let total = length remote_manifest.chunks % u32_mod in
      elim (local_blocks s remote_manifest local_file) [
        | err e ↦ err e
        | ok have ↦
            let need = missing have 0 total in
            elim (fetch (peer.block remote_path) need have) [
              | err e ↦ err e
              | ok (blocks, bytes) ↦ elim (in_order blocks 0 total) [
                | err e ↦ err e
                | ok ordered ↦ elim (reassemble sha256 remote_manifest ordered) [
                  | err e ↦ err SyncError.reassembly_failed
                  | ok restored ↦ ok (restored, need, bytes)
                ]
              ]
            ]
      ]

  -- The state, the local file and the result after a download. `file_name` is the last part of the
  -- path.
  unfoldable pub download_file :
      IncrementalSync
      → Peer
      → List ℕ
      → List ℕ
      → Option (List ℕ)
      → ℕ
      → IncrementalSync × Option (List ℕ) × Result SyncError SyncResult
  unfolding request_remote_manifest restore upsert
  download_file s peer remote_path file_name local_file now =
      elim (request_remote_manifest s peer remote_path) [
        | err e ↦ (s, local_file, err e)
        | ok m ↦ elim (restore s peer remote_path m local_file) [
          | err e ↦ (s, local_file, err e)
          | ok (restored, need, bytes) ↦ (
            record s { state = upsert s.state file_name m.file_hash m.file_size now },
            some restored,
            ok (record {
              total_blocks = length m.chunks % u32_mod;
              transferred_blocks = length need % u32_mod;
              bytes_transferred = bytes;
              already_in_sync = length need == 0;
            }),
          )
        ]
      ]

  -- The blocks that are sent, one after the other, until one fails, and their bytes.
  unfoldable pub send_blocks :
      Peer → List ℕ → List (List ℕ) → List BlockDiff → Result SyncError (ℕ × ℕ)
  send_blocks peer file_name chunks [] = ok (0, 0)
  send_blocks peer file_name chunks (b ∷ blocks) =
      let rest = send_blocks peer file_name chunks blocks in
      if is_transferred b.status
      then (elim (get_elem? chunks b.index) [
        | none ↦ err SyncError.missing_block
        | some chunk ↦
            if peer.takes_block file_name b.index chunk
            then (elim rest [ err e ↦ err e | ok (n, bytes) ↦ ok (suc n, length chunk + bytes) ])
            else err SyncError.send_failed
      ])
      else rest

  unfoldable pub sync_file :
      IncrementalSync
      → Peer
      → List ℕ
      → Option (List ℕ)
      → ℕ
      → IncrementalSync × Result SyncError SyncResult
  unfolding request_remote_manifest send_blocks upsert
  sync_file s peer file_name none now = (s, err SyncError.read_failed)
  sync_file s peer file_name (some bytes) now =
      let cut = chunk_data sha256 s.chunker bytes in
      let manifest = cut.0 in
      let total = length manifest.chunks % u32_mod in
      let transfer : IncrementalSync × Result SyncError SyncResult =
        elim (request_remote_manifest s peer file_name) [
          | err e ↦ (s, err e)
          | ok remote ↦ elim (diff_files sha256 s.diff_engine remote bytes) [
            | err e ↦ (s, err SyncError.diff_failed)
            | ok diff ↦ elim (send_blocks peer file_name cut.1 diff.changed_blocks) [
              | err e ↦ (s, err e)
              | ok (n, sent) ↦
                  if peer.takes_manifest file_name manifest
                  then (
                    record s {
                      state = upsert s.state file_name manifest.file_hash manifest.file_size now;
                    },
                    ok (record {
                      total_blocks = total;
                      transferred_blocks = n;
                      bytes_transferred = sent;
                      already_in_sync = false;
                    }),
                  )
                  else (s, err SyncError.send_failed)
            ]
          ]
        ] in
      let in_sync : SyncResult = record {
        total_blocks = total;
        transferred_blocks = 0;
        bytes_transferred = 0;
        already_in_sync = true;
      } in
      elim (Assoc.lookup bytes_eq file_name s.state) [
        | none ↦ transfer
        | some entry ↦
            ite (bytes_eq entry.last_synced_hash manifest.file_hash) (s, ok in_sync) transfer
      ]

  unfoldable pub needs_sync : IncrementalSync → List ℕ → Option (List ℕ) → Result SyncError Bool
  needs_sync s file_name none = err SyncError.read_failed
  needs_sync s file_name (some bytes) = elim (Assoc.lookup bytes_eq file_name s.state) [
    | none ↦ ok true
    | some entry ↦ ok (ite (bytes_eq entry.last_synced_hash (sha256 bytes)) false true)
  ]
