-- ===== src/Storage/Metadata/Stale.antt =====
-- An old version that wins by a detour (crates/vpn/src/storage/metadata.rs).

use lan_link.Prelude.{ℕ, ◌+◌, ◌<◌, ◌≡◌, refl, ap, ◌∙◌, List, Option, none, some, arith}
use lan_link.Storage.Chunk.{Hash}
use lan_link.Storage.Metadata.{
  conflict_window_secs, MetadataEntry, MetadataStore, query, all_entries,
}
use lan_link.Storage.Metadata.Merging.{should_merge, stamped, sync_from}
use lan_link.Storage.Metadata.Stores.{IsTime, IsStore, sync_from-IsStore, lookup-IsEntry}
use lan_link.Storage.Metadata.Sync.{hash_in, resolve, query-sync_from}

module _ (hash_of : List ℕ → Hash → ℕ) where
  resolve-older :
      (l r : MetadataEntry) (now : ℕ)
      → IsTime l.meta.updated_at
      → IsTime r.meta.updated_at
      → r.meta.updated_at + conflict_window_secs < l.meta.updated_at
      → hash_in (resolve hash_of (some l) (some r) now) ≡ some l.meta.file_hash
  unfolding resolve should_merge
  resolve-older l r now t u h = ground arith

  resolve-newer :
      (l r : MetadataEntry) (now : ℕ)
      → IsTime l.meta.updated_at
      → IsTime r.meta.updated_at
      → l.meta.updated_at + conflict_window_secs < r.meta.updated_at
      → hash_in (resolve hash_of (some l) (some r) now) ≡ some r.meta.file_hash
  unfolding resolve should_merge stamped
  resolve-newer l r now t u h = ground arith

  resolve-none :
      (r : MetadataEntry) (now : ℕ) → resolve hash_of none (some r) now ≡ some (stamped r now)
  unfolding resolve
  resolve-none r now = refl

  found :
      (x y : Option MetadataEntry) (l r : MetadataEntry) (now : ℕ)
      → x ≡ some l
      → y ≡ some r
      → hash_in (resolve hash_of x y now) ≡ hash_in (resolve hash_of (some l) (some r) now)
  found x y l r now p q = rw (p, q) refl

  -- A store `c` that has a newer version of a file keeps it when it takes the entries of `a`, which
  -- has an older one; but if a store `b` without the file takes them first, a while after the newer
  -- version was made, and `c` takes the entries of `b`, the older version replaces the newer.
  pub sync_from-stale :
      (a b c : MetadataStore) (name : List ℕ) (old new : MetadataEntry) (now later : ℕ)
      → IsStore a
      → IsStore b
      → IsStore c
      → query a name ≡ some old
      → query b name ≡ none
      → query c name ≡ some new
      → old.meta.updated_at + conflict_window_secs < new.meta.updated_at
      → new.meta.updated_at + conflict_window_secs < now
      → IsTime now
      → (hash_in (query (sync_from hash_of c (all_entries a) later).0 name)
          ≡ some new.meta.file_hash)
        × (hash_in (
              query
                (sync_from hash_of c
                  (all_entries (sync_from hash_of b (all_entries a) now).0)
                  later).0
                name)
            ≡ some old.meta.file_hash)
  unfolding query stamped
  sync_from-stale a b c name old new now later sa sb sc qa qb qc h g t =
      let b' = (sync_from hash_of b (all_entries a) now).0 in
      let oldt = (lookup-IsEntry a name old sa qa).1 in
      let newt = (lookup-IsEntry c name new sc qc).1 in
      let taken : query b' name ≡ some (stamped old now) =
        query-sync_from hash_of a b now name sa
        ∙ ap (λ o. resolve hash_of o (query a name) now) qb
        ∙ ap (λ o. resolve hash_of none o now) qa
        ∙ resolve-none old now in
      (
        ap hash_in (query-sync_from hash_of a c later name sa)
            ∙ found (query c name) (query a name) new old later qc qa
            ∙ resolve-older new old later newt oldt h,
        ap hash_in (
              query-sync_from hash_of b' c later name
                (sync_from-IsStore hash_of (all_entries a) b now t sb))
            ∙ found (query c name) (query b' name) new (stamped old now) later qc taken
            ∙ resolve-newer new (stamped old now) later newt t g,
      )
