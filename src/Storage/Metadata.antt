-- ===== src/Storage/Metadata.antt =====
-- `MetadataStore` of crates/vpn/src/storage/metadata.rs. A name is its bytes. The file to which the
-- store is saved after a change is left out, with the errors of files and of locks. A method takes
-- the time of the system clock.
pub mod Merging
pub mod Stores
pub mod Sync
pub mod Stale
use mathlib.Core.Option
use lan_link.Prelude.{
  ℕ, zero, suc, ◌+◌, ◌%◌, List, [], ◌∷◌, ◌++◌, length, Bool, true, false, Option, none, some, ltb,
  if◌then◌else◌, ite, ℕ_discrete, ◌==◌,
}
use lan_link.Prelude.Words.{u64_mod}
use lan_link.Prelude.Bytes.{bytes_eq}
use lan_link.Prelude.Assoc
use lan_link.Prelude.Result.{Result, ok, err}
use lan_link.Storage.Chunk.{Hash, FileManifest}
use lan_link.Storage.Diff.{no_hash}

abbrev pub conflict_window_secs : ℕ
conflict_window_secs = 5

pub record BlockLocation : Type 0 where
  pub hash : Hash
  pub index : ℕ
  pub nodes : List (List ℕ)
  pub last_synced : ℕ

pub record FileMetadata : Type 0 where
  pub name : List ℕ
  pub file_hash : Hash
  pub file_size : ℕ
  pub blocks : List BlockLocation
  pub created_at : ℕ
  pub updated_at : ℕ
  pub source_node : List ℕ
  pub encrypted : Bool

pub record MetadataEntry : Type 0 where
  pub meta : FileMetadata
  pub manifest : Option FileManifest

pub data MetadataError : Type 0 where
  already_exists not_found : List ℕ → MetadataError

abbrev pub MetadataStore : Type 0
MetadataStore = List (List ℕ × MetadataEntry)

unfoldable pub upsert :
    MetadataStore
    → List ℕ
    → Hash
    → ℕ
    → Option FileManifest
    → List BlockLocation
    → List ℕ
    → ℕ
    → MetadataStore
upsert entries name file_hash file_size manifest blocks source_node now =
    let entry : MetadataEntry = record {
      meta = record {
        name = name;
        file_hash = file_hash;
        file_size = file_size;
        blocks = blocks;
        created_at = now;
        updated_at = now;
        source_node = source_node;
        encrypted = false;
      };
      manifest = manifest;
    } in
    Assoc.insert bytes_eq name entry entries

unfoldable pub register :
    MetadataStore
    → List ℕ
    → Hash
    → ℕ
    → Option FileManifest
    → List BlockLocation
    → List ℕ
    → ℕ
    → MetadataStore × Result MetadataError (Unit {0})
unfolding upsert
register entries name file_hash file_size manifest blocks source_node now =
    elim (Assoc.lookup bytes_eq name entries) [
      | some entry ↦ (entries, err (MetadataError.already_exists name))
      | none ↦ (upsert entries name file_hash file_size manifest blocks source_node now, ok tt)
    ]

unfoldable pub query : MetadataStore → List ℕ → Option MetadataEntry
query entries name = Assoc.lookup bytes_eq name entries

unfoldable pub find_block : ℕ → List BlockLocation → Option BlockLocation
find_block index [] = none
find_block index (b ∷ blocks) = ite (ℕ_discrete b.index index) (some b) (find_block index blocks)

unfoldable pub get_block_nodes : MetadataStore → List ℕ → ℕ → List (List ℕ)
unfolding find_block
get_block_nodes entries name block_index = elim (Assoc.lookup bytes_eq name entries) [
  | none ↦ []
  | some entry ↦ elim (find_block block_index entry.meta.blocks) [ none ↦ [] | some b ↦ b.nodes ]
]

unfoldable pub block_distribution : List BlockLocation → List (ℕ × List (List ℕ))
block_distribution [] = []
block_distribution (b ∷ blocks) = (b.index, b.nodes) ∷ block_distribution blocks

unfoldable pub contains : List ℕ → List (List ℕ) → Bool
contains node [] = false
contains node (n ∷ nodes) = ite (bytes_eq n node) true (contains node nodes)

unfoldable pub add_node : List ℕ → List (List ℕ) → List (List ℕ)
unfolding contains
add_node node nodes = if contains node nodes then nodes else nodes ++ (node ∷ [])

unfoldable pub add_all : List (List ℕ) → List (List ℕ) → List (List ℕ)
unfolding add_node
add_all [] nodes = nodes
add_all (n ∷ new_nodes) nodes = add_all new_nodes (add_node n nodes)

unfoldable pub sync_block : ℕ → List (List ℕ) → ℕ → List BlockLocation → List BlockLocation
unfolding add_all
sync_block index new_nodes now [] = []
sync_block index new_nodes now (b ∷ blocks) =
    ite (ℕ_discrete b.index index)
      (record b { nodes = add_all new_nodes b.nodes; last_synced = now } ∷ blocks)
      (b ∷ sync_block index new_nodes now blocks)

-- A block that is not there is made, with a hash that is not known.
unfoldable pub add_to_block : ℕ → List ℕ → ℕ → List BlockLocation → List BlockLocation
unfolding add_node
add_to_block index node now [] =
    record { hash = no_hash; index = index; nodes = node ∷ []; last_synced = now } ∷ []
add_to_block index node now (b ∷ blocks) =
    ite (ℕ_discrete b.index index)
      (record b { nodes = add_node node b.nodes; last_synced = now } ∷ blocks)
      (b ∷ add_to_block index node now blocks)

unfoldable pub with_blocks : MetadataEntry → List BlockLocation → ℕ → MetadataEntry
with_blocks entry blocks now = record {
  meta = record (entry.meta) { blocks = blocks; updated_at = now };
  manifest = entry.manifest;
}

unfoldable pub add_block_node :
    MetadataStore → List ℕ → ℕ → List ℕ → ℕ → MetadataStore × Result MetadataError (Unit {0})
unfolding add_to_block with_blocks
add_block_node entries name block_index node now = elim (Assoc.lookup bytes_eq name entries) [
  | none ↦ (entries, err (MetadataError.not_found name))
  | some entry ↦ (
    Assoc.insert bytes_eq name
        (with_blocks entry (add_to_block block_index node now entry.meta.blocks) now) entries,
    ok tt,
  )
]

unfoldable pub sync_blocks : List (ℕ × List (List ℕ)) → ℕ → List BlockLocation → List BlockLocation
unfolding sync_block
sync_blocks [] now blocks = blocks
sync_blocks ((index, new_nodes) ∷ by_index) now blocks =
    sync_blocks by_index now (sync_block index new_nodes now blocks)

unfoldable pub add_block_nodes :
    MetadataStore
    → List ℕ
    → List (ℕ × List (List ℕ))
    → ℕ
    → MetadataStore × Result MetadataError (Unit {0})
unfolding sync_blocks with_blocks
add_block_nodes entries name nodes_by_index now = elim (Assoc.lookup bytes_eq name entries) [
  | none ↦ (entries, err (MetadataError.not_found name))
  | some entry ↦ (
    Assoc.insert bytes_eq name
        (with_blocks entry (sync_blocks nodes_by_index now entry.meta.blocks) now) entries,
    ok tt,
  )
]

unfoldable pub remove_file :
    MetadataStore → List ℕ → MetadataStore × Result MetadataError (Unit {0})
remove_file entries name = elim (Assoc.lookup bytes_eq name entries) [
  | none ↦ (entries, err (MetadataError.not_found name))
  | some entry ↦ (Assoc.remove bytes_eq name entries, ok tt)
]

unfoldable pub mark_encrypted :
    MetadataStore → List ℕ → ℕ → MetadataStore × Result MetadataError (Unit {0})
mark_encrypted entries name now = elim (Assoc.lookup bytes_eq name entries) [
  | none ↦ (entries, err (MetadataError.not_found name))
  | some entry ↦ (
    Assoc.insert bytes_eq name
        (record {
          meta = record (entry.meta) { encrypted = true; updated_at = now };
          manifest = entry.manifest;
        })
        entries,
    ok tt,
  )
]

unfoldable pub all_entries : MetadataStore → List MetadataEntry
all_entries [] = []
all_entries ((name, entry) ∷ entries) = entry ∷ all_entries entries
