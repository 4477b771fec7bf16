-- ===== src/Storage/Version/Deadlock.antt =====
-- A call that asks for the lock that it holds (crates/vpn/src/storage/version.rs).

use lan_link.Prelude.{ℕ, ◌-◌, ◌<◌, ◌≤◌, ◌≡◌, ◌≢◌, refl, ap, ◌∙◌, List, length, take, some, arith}
use lan_link.Prelude.Bytes.{bytes_eq}
use lan_link.Prelude.Assoc
use lan_link.Prelude.Assoc.{lookup-insert_self}
use lan_link.Prelude.Result.{Result, ok, err, on_some}
use lan_link.Prelude.Locks.{RwLock, Reentry, acquire, Outcome}
use lan_link.Storage.Chunk.{FileManifest}
use lan_link.Storage.Version.{
  FileVersions, VersionManager, VersionError, prune, save_if_dirty, save_changed, save_pruned,
  prune_versions, with_snapshot, create_snapshot, list_versions,
}

-- A call that does not return: it waits for ever, or it panics.
abbrev pub stuck {ℓ} : {A : Type ℓ} → Reentry → Outcome A
stuck Reentry.deadlocks = Outcome.blocks
stuck Reentry.unwinds = Outcome.panics

-- What a call of another thread comes to after it.
abbrev pub after_stuck : {A : Type 0} → Reentry → Outcome (Result VersionError A)
after_stuck Reentry.deadlocks = Outcome.blocks
after_stuck Reentry.unwinds = Outcome.returns (err VersionError.lock_poisoned)

-- What the lock is after it.
abbrev left : Reentry → ℕ → RwLock
left Reentry.deadlocks thread = RwLock.held thread
left Reentry.unwinds thread = RwLock.poisoned

save_pruned-none :
    (reentry : Reentry) (thread : ℕ) (m : VersionManager) (n : ℕ)
    → n ≡ 0
    → (save_pruned reentry thread m n).1 ≡ Outcome.returns (ok 0)
unfolding save_pruned
save_pruned-none reentry thread m n e = ground arith

-- The lock is held when `save_if_dirty` asks for it.
save_pruned-stuck :
    (reentry : Reentry) (thread : ℕ) (m : VersionManager) (n : ℕ)
    → 0 < n
    → m.dirty ≡ RwLock.free
    → save_pruned reentry thread m n ≡ (record m { dirty = left reentry thread }, stuck reentry)
unfolding save_pruned save_if_dirty acquire
save_pruned-stuck Reentry.deadlocks thread m n h e = ground arith
save_pruned-stuck Reentry.unwinds thread m n h e = ground arith

-- A change by another thread.
save_changed-left :
    {A : Type 0} (reentry : Reentry) (thread other : ℕ) (m : VersionManager) (a : A)
    → m.dirty ≡ left reentry thread
    → other ≢ thread
    → (save_changed reentry other m a).1 ≡ after_stuck reentry
unfolding save_changed acquire
save_changed-left Reentry.deadlocks thread other m a e h = rw e (ground arith)
save_changed-left Reentry.unwinds thread other m a e h = rw e refl

module _ (fv : FileVersions) (max_versions : ℕ) where
  count-prune : (prune fv max_versions).1 ≡ length fv.versions - max_versions
  unfolding prune
  count-prune = ground arith

  versions-prune :
      max_versions < length fv.versions
      → (prune fv max_versions).0.versions ≡ take max_versions fv.versions
  unfolding prune
  versions-prune h = ground arith

-- What a call does for a file with a history.
prune_versions_lem :
    (reentry : Reentry) (thread : ℕ) (m : VersionManager) (f : List ℕ) (fv : FileVersions)
    (max_versions : ℕ)
    → Assoc.lookup bytes_eq f m.store ≡ some fv
    → prune_versions reentry thread m f max_versions
      ≡ save_pruned reentry thread
          (record m { store = Assoc.insert bytes_eq f (prune fv max_versions).0 m.store })
          (prune fv max_versions).1
unfolding prune_versions
prune_versions_lem reentry thread m f fv max_versions e =
    on_some (Assoc.lookup bytes_eq f m.store) fv _ _ e

-- A call of `prune_versions` for a file with a history, with the lock of `dirty` free, returns
-- exactly if there is nothing to remove. Else only the newest `max_versions` versions are left, but
-- the call waits for ever or panics, whichever the lock does with a thread that asks for it twice;
-- and then each snapshot by another thread, of whatever file, waits for ever or fails.
pub prune_versions-blocks :
    (reentry : Reentry) (thread other : ℕ) (m : VersionManager) (f : List ℕ) (fv : FileVersions)
    (max_versions : ℕ)
    → Assoc.lookup bytes_eq f m.store ≡ some fv
    → m.dirty ≡ RwLock.free
    → other ≢ thread
    → (length fv.versions ≤ max_versions
        → (prune_versions reentry thread m f max_versions).1 ≡ Outcome.returns (ok 0))
      × (max_versions < length fv.versions
          → ((prune_versions reentry thread m f max_versions).1 ≡ stuck reentry)
            × (list_versions (prune_versions reentry thread m f max_versions).0 f
                ≡ take max_versions fv.versions)
            × ((g : List ℕ) (manifest : FileManifest) (annotation : List ℕ) (now : ℕ)
                → (create_snapshot reentry other
                    (prune_versions reentry thread m f max_versions).0
                    g
                    manifest
                    annotation
                    now).1
                  ≡ after_stuck reentry))
unfolding create_snapshot with_snapshot list_versions
prune_versions-blocks reentry thread other m f fv max_versions e free h =
    let p = prune_versions_lem reentry thread m f fv max_versions e in
    let n = count-prune fv max_versions in
    (
      λ few. ap (λ r. r.1) p ∙ save_pruned-none reentry thread _ _ (omega (arith, n)),
      λ many.
          let b = p ∙ save_pruned-stuck reentry thread _ _ (omega (arith, n)) free in
          (
            ap (λ r. r.1) b,
            ap (λ r. list_versions r.0 f) b
                ∙ on_some (Assoc.lookup bytes_eq f _) _ _ _
                    (lookup-insert_self bytes_eq f _ m.store)
                ∙ versions-prune fv max_versions many,
            λ g manifest annotation now.
                save_changed-left reentry thread other _ _ (ap (λ r. r.0.dirty) b) h,
          ),
    )
