-- ===== src/Storage/Metadata/Merging.antt =====
-- `MetadataStore::sync_from` of crates/vpn/src/storage/metadata.rs. `hash_of`, the number that the
-- hasher of the standard library makes of a name and a hash, is a parameter: its documentation leaves
-- the algorithm open.

use lan_link.Prelude.{
  ℕ, suc, ◌+◌, ◌%◌, List, [], ◌∷◌, Bool, true, false, none, some, ltb, if◌then◌else◌,
}
use lan_link.Prelude.Words.{u64_mod}
use lan_link.Prelude.Bytes.{bytes_eq}
use lan_link.Prelude.Assoc
use lan_link.Storage.Chunk.{Hash}
use lan_link.Storage.Metadata.{conflict_window_secs, MetadataEntry, MetadataStore}

-- What is stored of an entry that is merged.
unfoldable pub stamped : MetadataEntry → ℕ → MetadataEntry
stamped remote now = record {
  meta = record (remote.meta) { updated_at = now };
  manifest = remote.manifest;
}

module _ (hash_of : List ℕ → Hash → ℕ) where
  unfoldable pub hash_entry : MetadataEntry → ℕ
  hash_entry entry = hash_of entry.meta.name entry.meta.file_hash

  -- The sums of the times wrap round, as in a release build.
  unfoldable pub should_merge : MetadataEntry → MetadataEntry → Bool
  unfolding hash_entry
  should_merge local remote =
      if ltb ((local.meta.updated_at + conflict_window_secs) % u64_mod) remote.meta.updated_at
      then true
      else (if ltb ((remote.meta.updated_at + conflict_window_secs) % u64_mod) local.meta.updated_at
          then false
          else ltb (hash_entry local) (hash_entry remote))

  unfoldable pub is_merged : MetadataStore → MetadataEntry → Bool
  unfolding should_merge
  is_merged entries remote = elim (Assoc.lookup bytes_eq remote.meta.name entries) [
    | some local ↦ should_merge local remote
    | none ↦ true
  ]

  -- One round of the loop, and whether it merged.
  unfoldable pub merge_one : MetadataStore → MetadataEntry → ℕ → MetadataStore × Bool
  unfolding is_merged stamped
  merge_one entries remote now =
      if is_merged entries remote
      then (Assoc.insert bytes_eq remote.meta.name (stamped remote now) entries, true)
      else (entries, false)

  unfoldable pub sync_from : MetadataStore → List MetadataEntry → ℕ → MetadataStore × ℕ
  unfolding merge_one
  sync_from entries [] now = (entries, 0)
  sync_from entries (remote ∷ remote_entries) now =
      let one = merge_one entries remote now in
      let rest = sync_from one.0 remote_entries now in
      (rest.0, if one.1 then suc rest.1 else rest.1)
