-- ===== src/Storage/Version/Snapshots.antt =====
-- What is restored after more snapshots (crates/vpn/src/storage/version.rs).

use lan_link.Prelude.{
  ℕ, suc, ◌+◌, ◌%◌, ◌<◌, ◌≤◌, ◌≡◌, ◌≢◌, refl, ap, sym, subst, ◌∙◌, if_pos, if_neg, List, [], ◌∷◌,
  length, Option, none, some, arith,
}
use lan_link.Prelude.Words.{u32_mod}
use lan_link.Prelude.Bytes.{bytes_eq}
use lan_link.Prelude.Assoc
use lan_link.Prelude.Assoc.{lookup-insert_self, lookup-insert_ne}
use lan_link.Prelude.Result.{ok}
use lan_link.Prelude.Locks.{Reentry, Outcome}
use lan_link.Storage.Chunk.{FileManifest}
use lan_link.Storage.Timestamps.{version_id_of, format_timestamp}
use lan_link.Storage.Version.{
  VersionEntry, FileVersions, push, find_version, VersionManager, version_id_of, format_timestamp,
  get_or_create, save_if_dirty, save_changed, with_snapshot, create_snapshot, get_version,
  restore_version,
}
use lan_link.Storage.Timestamps.Ids.{version_id_of-injective}

-- What a call of `create_snapshot` is given, with its thread and the time at which it comes.
pub record Snapshot : Type 0 where
  pub thread : ℕ
  pub file_name : List ℕ
  pub manifest : FileManifest
  pub annotation : List ℕ
  pub now : ℕ

unfoldable pub create_snapshots : Reentry → VersionManager → List Snapshot → VersionManager
create_snapshots reentry m [] = m
create_snapshots reentry m (s ∷ later) =
    create_snapshots reentry
      (create_snapshot reentry s.thread m s.file_name s.manifest s.annotation s.now).0 later

-- The versions of a file, none if it is not there.
abbrev versions : Option FileVersions → List VersionEntry
versions none = []
versions (some fv) = fv.versions

abbrev versions_of : VersionManager → List ℕ → List VersionEntry
versions_of m f = versions (Assoc.lookup bytes_eq f m.store)

restore_version_lem :
    (m : VersionManager) (f id : List ℕ) (v : VersionEntry)
    → find_version id (versions_of m f) ≡ some v
    → restore_version m f id ≡ ok v.manifest
unfolding restore_version get_version find_version
restore_version_lem m f id v e = ground arith

-- The lock of `dirty` aside, what is stored is not changed any more.
module _ {A : Type 0} (reentry : Reentry) (thread : ℕ) (m : VersionManager) (a : A) where
  store-save_changed : (save_changed reentry thread m a).0.store ≡ m.store
  unfolding save_changed save_if_dirty
  store-save_changed = ground arith

  seq_counter-save_changed : (save_changed reentry thread m a).0.seq_counter ≡ m.seq_counter
  unfolding save_changed save_if_dirty
  seq_counter-save_changed = ground arith

  result-save_changed :
      (b : A) → (save_changed reentry thread m a).1 ≡ Outcome.returns (ok b) → a ≡ b
  unfolding save_changed save_if_dirty
  result-save_changed b e = ground arith

module _ (reentry : Reentry) (m : VersionManager) (s : Snapshot) where
  abbrev after : VersionManager
  after = (create_snapshot reentry s.thread m s.file_name s.manifest s.annotation s.now).0

  stored : after.store ≡ (with_snapshot m s.file_name s.manifest s.annotation s.now).store
  unfolding create_snapshot
  stored = store-save_changed reentry s.thread _ _

  entry : VersionEntry
  entry = record {
    version_id = version_id_of s.now (m.seq_counter % u32_mod);
    timestamp = format_timestamp s.now;
    unix_secs = s.now;
    seq = m.seq_counter % u32_mod;
    manifest = s.manifest;
    annotation = s.annotation;
  }

  -- A snapshot is the newest version of its file, and leaves the other files.
  versions_after_self : versions_of after s.file_name ≡ entry ∷ versions_of m s.file_name
  unfolding with_snapshot push get_or_create entry
  versions_after_self =
      ap (λ st. versions (Assoc.lookup bytes_eq s.file_name st)) stored
      ∙ ap versions (lookup-insert_self bytes_eq s.file_name _ m.store)
      ∙ ap (◌∷◌ entry) (ground arith)

  versions_after_ne : (f : List ℕ) → f ≢ s.file_name → versions_of after f ≡ versions_of m f
  unfolding with_snapshot
  versions_after_ne f n =
      ap (λ st. versions (Assoc.lookup bytes_eq f st)) stored
      ∙ ap versions (lookup-insert_ne bytes_eq s.file_name f _ m.store n)

  find_after :
      (f id : List ℕ)
      → version_id_of s.now (m.seq_counter % u32_mod) ≢ id
      → find_version id (versions_of after f) ≡ find_version id (versions_of m f)
  unfolding find_version entry
  find_after f id h = elim (bytes_eq f s.file_name) [
    | yes p ↦
        subst (λ g. find_version id (versions_of after g) ≡ find_version id (versions_of m g))
          (sym p)
          (ap (find_version id) versions_after_self ∙ if_neg (bytes_eq entry.version_id id) h _ _)
    | no n ↦ ap (find_version id) (versions_after_ne f n)
  ]

  find_new : find_version entry.version_id (versions_of after s.file_name) ≡ some entry
  unfolding find_version
  find_new =
      ap (find_version entry.version_id) versions_after_self
      ∙ if_pos (bytes_eq entry.version_id entry.version_id) refl _ _

  id_new :
      (id : List ℕ)
      → (create_snapshot reentry s.thread m s.file_name s.manifest s.annotation s.now).1
        ≡ Outcome.returns (ok id)
      → version_id_of s.now (m.seq_counter % u32_mod) ≡ id
  unfolding create_snapshot
  id_new id e = result-save_changed reentry s.thread _ _ id e

  counter_after : m.seq_counter < u32_mod → (after.seq_counter ≡ suc m.seq_counter)
  unfolding create_snapshot with_snapshot
  counter_after h =
      let c =
        seq_counter-save_changed reentry s.thread
          (with_snapshot m s.file_name s.manifest s.annotation s.now)
          (version_id_of s.now (m.seq_counter % u32_mod)) in
      omega (arith, c)

find-create_snapshots :
    (reentry : Reentry) (later : List Snapshot) (m : VersionManager) (f : List ℕ) (now seq : ℕ)
    (v : VersionEntry)
    → seq < m.seq_counter
    → m.seq_counter + length later ≤ u32_mod
    → find_version (version_id_of now seq) (versions_of m f) ≡ some v
    → find_version (version_id_of now seq) (versions_of (create_snapshots reentry m later) f)
      ≡ some v
unfolding create_snapshots
find-create_snapshots reentry [] m f now seq v h g e = e
find-create_snapshots reentry (s ∷ later) m f now seq v h g e =
    let c = counter_after reentry m s (omega arith) in
    find-create_snapshots reentry later (after reentry m s) f now seq v (omega (arith, c))
      (omega (arith, c))
      (find_after reentry m s f (version_id_of now seq) (λ same.
          let i =
            version_id_of-injective s.now now (m.seq_counter % u32_mod) seq (omega arith)
              (omega arith) same in
          omega (arith, i))
        ∙ e)

-- While fewer than 2^32 snapshots are made, each one is restored under the id that its call has
-- returned, whatever snapshots of this and other files come after it.
pub restore-create_snapshots :
    (reentry : Reentry) (m : VersionManager) (s : Snapshot) (later : List Snapshot) (id : List ℕ)
    → m.seq_counter + suc (length later) ≤ u32_mod
    → (create_snapshot reentry s.thread m s.file_name s.manifest s.annotation s.now).1
      ≡ Outcome.returns (ok id)
    → restore_version
        (create_snapshots reentry
          (create_snapshot reentry s.thread m s.file_name s.manifest s.annotation s.now).0
          later)
        s.file_name
        id
      ≡ ok s.manifest
unfolding entry
restore-create_snapshots reentry m s later id h e =
    let c = counter_after reentry m s (omega arith) in
    subst
      (λ i.
        restore_version (create_snapshots reentry (after reentry m s) later) s.file_name i
        ≡ ok s.manifest)
      (id_new reentry m s id e)
      (restore_version_lem (create_snapshots reentry (after reentry m s) later) s.file_name _
        (entry reentry m s)
        (find-create_snapshots reentry later (after reentry m s) s.file_name s.now
          (m.seq_counter % u32_mod) (entry reentry m s) (omega (arith, c)) (omega (arith, c))
          (find_new reentry m s)))
