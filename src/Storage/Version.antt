-- ===== src/Storage/Version.antt =====
-- `VersionManager` of crates/vpn/src/storage/version.rs. A name is its bytes. The file to which the
-- store is saved after a change is left out. A method takes the time of the system clock. A method
-- that takes the lock of `dirty` takes the thread that calls it, and what the library does when a
-- thread asks for a lock that it holds.
pub mod Snapshots
pub mod Deadlock
use lan_link.Prelude.{
  ℕ, zero, suc, ◌+◌, ◌-◌, ◌*◌, ◌/◌, ◌%◌, List, [], ◌∷◌, ◌++◌, length, take, Option, none, some,
  Bool, true, false, ltb, leb, if◌then◌else◌, ite,
}
use lan_link.Prelude.Words.{u32_mod, u64_mod}
use lan_link.Prelude.Bytes.{bytes_eq}
use lan_link.Prelude.Locks.{RwLock, Reentry, Grant, acquire, Outcome}
use lan_link.Prelude.Assoc
use lan_link.Prelude.Result.{Result, ok, err}
use lan_link.Storage.Chunk.{FileManifest}
use lan_link.Storage.Timestamps.{format_timestamp, version_id_of}

pub record VersionEntry : Type 0 where
  pub version_id : List ℕ
  pub timestamp : List ℕ
  pub unix_secs : ℕ
  pub seq : ℕ
  pub manifest : FileManifest
  pub annotation : List ℕ

pub record FileVersions : Type 0 where
  pub file_name : List ℕ
  pub versions : List VersionEntry

unfoldable pub push : FileVersions → VersionEntry → FileVersions
push fv entry = record fv { versions = entry ∷ fv.versions }

unfoldable pub latest : FileVersions → Option VersionEntry
latest fv = elim fv.versions [ [] ↦ none | v ∷ older ↦ some v ]

unfoldable pub find_version : List ℕ → List VersionEntry → Option VersionEntry
find_version version_id [] = none
find_version version_id (v ∷ versions) =
    ite (bytes_eq v.version_id version_id) (some v) (find_version version_id versions)

unfoldable pub prune : FileVersions → ℕ → FileVersions × ℕ
prune fv max_versions =
    if leb (length fv.versions) max_versions
    then (fv, 0)
    else (record fv { versions = take max_versions fv.versions }, length fv.versions - max_versions)

abbrev pub VersionStore : Type 0
VersionStore = List (List ℕ × FileVersions)

unfoldable pub total_versions : VersionStore → ℕ
total_versions [] = 0
total_versions ((name, fv) ∷ files) = length fv.versions + total_versions files

unfoldable pub prune_all : VersionStore → ℕ → VersionStore × ℕ
unfolding prune
prune_all [] max_versions = ([], 0)
prune_all ((name, fv) ∷ files) max_versions =
    let here = prune fv max_versions in
    let rest = prune_all files max_versions in ((name, here.0) ∷ rest.0, here.1 + rest.1)

pub record VersionManager : Type 0 where
  pub store : VersionStore
  pub seq_counter : ℕ
  pub dirty : RwLock

pub data VersionError : Type 0 where
  not_found lock_poisoned : VersionError

unfoldable pub new : VersionManager
new = record { store = []; seq_counter = 0; dirty = RwLock.free }

-- What a manager is that is loaded from a file: it starts to count at 0.
unfoldable pub load_from_file : VersionStore → VersionManager
load_from_file store = record { store = store; seq_counter = 0; dirty = RwLock.free }

unfoldable pub get_or_create : VersionStore → List ℕ → FileVersions
get_or_create store file_name = elim (Assoc.lookup bytes_eq file_name store) [
  | none ↦ record { file_name = file_name; versions = [] }
  | some fv ↦ fv
]

-- The lock is read and given back; `save` then takes it to write, when it is free.
unfoldable pub save_if_dirty : Reentry → ℕ → VersionManager → VersionManager × Outcome (Unit {0})
unfolding acquire
save_if_dirty reentry thread m = elim (acquire reentry thread m.dirty) [
  | Grant.granted ↦ (m, Outcome.returns tt)
  | Grant.refused ↦ (m, Outcome.returns tt)
  | Grant.blocked ↦ (m, Outcome.blocks)
  | Grant.panicked ↦ (record m { dirty = RwLock.poisoned }, Outcome.panics)
]

-- `*self.dirty.write()? = true` in a block of its own, `save_if_dirty`, and the result.
unfoldable pub save_changed :
    {A : Type 0}
    → Reentry
    → ℕ
    → VersionManager
    → A
    → VersionManager × Outcome (Result VersionError A)
unfolding acquire save_if_dirty
save_changed reentry thread m a = elim (acquire reentry thread m.dirty) [
  | Grant.granted ↦
      let saved = save_if_dirty reentry thread m in
      elim saved.1 [
        | Outcome.returns u ↦ (saved.0, Outcome.returns (ok a))
        | Outcome.blocks ↦ (saved.0, Outcome.blocks)
        | Outcome.panics ↦ (saved.0, Outcome.panics)
      ]
  | Grant.refused ↦ (m, Outcome.returns (err VersionError.lock_poisoned))
  | Grant.blocked ↦ (m, Outcome.blocks)
  | Grant.panicked ↦ (record m { dirty = RwLock.poisoned }, Outcome.panics)
]

-- The manager with a snapshot in its store, before the lock of `dirty` is taken.
unfoldable pub with_snapshot : VersionManager → List ℕ → FileManifest → List ℕ → ℕ → VersionManager
unfolding version_id_of get_or_create push
with_snapshot m file_name manifest annotation now =
    let seq = m.seq_counter % u32_mod in
    let entry : VersionEntry = record {
      version_id = version_id_of now seq;
      timestamp = format_timestamp now;
      unix_secs = now;
      seq = seq;
      manifest = manifest;
      annotation = annotation;
    } in
    record m {
      store =
          Assoc.insert bytes_eq file_name (push (get_or_create m.store file_name) entry) m.store;
      seq_counter = (m.seq_counter + 1) % u64_mod;
    }

unfoldable pub create_snapshot :
    Reentry
    → ℕ
    → VersionManager
    → List ℕ
    → FileManifest
    → List ℕ
    → ℕ
    → VersionManager × Outcome (Result VersionError (List ℕ))
unfolding with_snapshot save_changed
create_snapshot reentry thread m file_name manifest annotation now =
    save_changed reentry thread (with_snapshot m file_name manifest annotation now)
      (version_id_of now (m.seq_counter % u32_mod))

unfoldable pub list_versions : VersionManager → List ℕ → List VersionEntry
list_versions m file_name = elim (Assoc.lookup bytes_eq file_name m.store) [
  | none ↦ []
  | some fv ↦ fv.versions
]

unfoldable pub get_version : VersionManager → List ℕ → List ℕ → Option VersionEntry
unfolding find_version
get_version m file_name version_id = elim (Assoc.lookup bytes_eq file_name m.store) [
  | none ↦ none
  | some fv ↦ find_version version_id fv.versions
]

unfoldable pub latest_version : VersionManager → List ℕ → Option VersionEntry
unfolding latest
latest_version m file_name = elim (Assoc.lookup bytes_eq file_name m.store) [
  | none ↦ none
  | some fv ↦ latest fv
]

unfoldable pub restore_version : VersionManager → List ℕ → List ℕ → Result VersionError FileManifest
unfolding get_version
restore_version m file_name version_id = elim (get_version m file_name version_id) [
  | none ↦ err VersionError.not_found
  | some v ↦ ok v.manifest
]

-- After a change the lock of `dirty` is taken and kept to the end of the block, in which
-- `save_if_dirty` is called.
unfoldable pub save_pruned :
    Reentry → ℕ → VersionManager → ℕ → VersionManager × Outcome (Result VersionError ℕ)
unfolding acquire save_if_dirty
save_pruned reentry thread m pruned =
    let saved = save_if_dirty reentry thread (record m { dirty = RwLock.held thread }) in
    let locked : VersionManager × Outcome (Result VersionError ℕ) =
      elim (acquire reentry thread m.dirty) [
        | Grant.granted ↦ elim saved.1 [
          | Outcome.returns u ↦
              (record (saved.0) { dirty = RwLock.free }, Outcome.returns (ok pruned))
          | Outcome.blocks ↦ (saved.0, Outcome.blocks)
          | Outcome.panics ↦ (saved.0, Outcome.panics)
        ]
        | Grant.refused ↦ (m, Outcome.returns (err VersionError.lock_poisoned))
        | Grant.blocked ↦ (m, Outcome.blocks)
        | Grant.panicked ↦ (record m { dirty = RwLock.poisoned }, Outcome.panics)
      ] in
    if ltb 0 pruned then locked else (m, Outcome.returns (ok pruned))

unfoldable pub prune_versions :
    Reentry → ℕ → VersionManager → List ℕ → ℕ → VersionManager × Outcome (Result VersionError ℕ)
unfolding prune save_pruned
prune_versions reentry thread m file_name max_versions =
    elim (Assoc.lookup bytes_eq file_name m.store) [
      | none ↦ (m, Outcome.returns (err VersionError.not_found))
      | some fv ↦
          let next = prune fv max_versions in
          save_pruned reentry thread
            (record m { store = Assoc.insert bytes_eq file_name next.0 m.store }) next.1
    ]

unfoldable pub prune_all_versions :
    Reentry → ℕ → VersionManager → ℕ → VersionManager × Outcome (Result VersionError ℕ)
unfolding prune_all save_pruned
prune_all_versions reentry thread m max_versions =
    let next = prune_all m.store max_versions in
    save_pruned reentry thread (record m { store = next.0 }) next.1

unfoldable pub remove_file :
    Reentry
    → ℕ
    → VersionManager
    → List ℕ
    → VersionManager × Outcome (Result VersionError (Unit {0}))
unfolding save_changed
remove_file reentry thread m file_name = elim (Assoc.lookup bytes_eq file_name m.store) [
  | none ↦ (m, Outcome.returns (err VersionError.not_found))
  | some fv ↦
      save_changed reentry thread (record m { store = Assoc.remove bytes_eq file_name m.store }) tt
]

unfoldable pub has_versions : VersionManager → List ℕ → Bool
has_versions m file_name = elim (Assoc.lookup bytes_eq file_name m.store) [
  | none ↦ false
  | some fv ↦ ltb 0 (length fv.versions)
]
