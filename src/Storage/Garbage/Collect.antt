-- ===== src/Storage/Garbage/Collect.antt =====
-- What a collection finds (crates/vpn/src/storage/gc.rs).

use lan_link.Prelude.{
  ◌≡◌, ◌↔◌, inl, inr, refl, sym, subst, List, [], ◌∷◌, ℕ, Option, none, some, arith,
}
use lan_link.Prelude.Bytes.{bytes_eq}
use lan_link.Prelude.Assoc
use lan_link.Storage.Chunk.{Hash}
use lan_link.Storage.Metadata.{MetadataEntry, MetadataStore, query}
use lan_link.Storage.Version.{VersionEntry, FileVersions, VersionManager, list_versions}
use lan_link.Storage.Garbage.{
  list_files, collect_referenced_blocks, collect_all_metadata_blocks, blocks_of, collect,
}
use lan_link.Storage.Garbage.Unreferenced.{
  In, chunk_hashes, block_hashes, In-difference, In-insert_all, In-append, insert_all,
  version_hashes, file_hashes, metadata_hashes, insert_files_lem, insert_metadata_lem,
}

In-insert_all_nil : (x : Hash) (hashes : List Hash) → In x (insert_all hashes []) ↔ In x hashes
In-insert_all_nil x hashes =
    let both = In-insert_all x hashes [] in
    (λ i. elim (both.0 i) [ inl j ↦ j | inr a ↦ absurd a ], λ i. both.1 (inl i))

In-version_hashes_inv :
    (x : Hash) (versions : List VersionEntry)
    → In x (version_hashes versions)
    → (v : VersionEntry) × In v versions × In x (chunk_hashes v.manifest.chunks)
In-version_hashes_inv x [] i = absurd i
In-version_hashes_inv x (v ∷ versions) i =
    elim ((In-append x (chunk_hashes v.manifest.chunks) (version_hashes versions)).0 i) [
      | inl j ↦ (v, inl refl, j)
      | inr j ↦ let k = In-version_hashes_inv x versions j in (k.0, inr k.1, k.2)
    ]

In-version_hashes :
    (x : Hash) (versions : List VersionEntry) (v : VersionEntry)
    → In v versions
    → In x (chunk_hashes v.manifest.chunks)
    → In x (version_hashes versions)
In-version_hashes x [] v i j = absurd i
In-version_hashes x (w ∷ versions) v i j =
    (In-append x (chunk_hashes w.manifest.chunks) (version_hashes versions)).1 (elim i [
      | inl p ↦ inl (subst (λ (u : VersionEntry). In x (chunk_hashes u.manifest.chunks)) p j)
      | inr k ↦ inr (In-version_hashes x versions v k j)
    ])

In-file_hashes_inv :
    (x : Hash) (m : VersionManager) (names : List (List ℕ))
    → In x (file_hashes m names)
    → (name : List ℕ) × (v : VersionEntry) × In v (list_versions m name)
      × In x (chunk_hashes v.manifest.chunks)
In-file_hashes_inv x m [] i = absurd i
In-file_hashes_inv x m (name ∷ names) i =
    elim ((In-append x (version_hashes (list_versions m name)) (file_hashes m names)).0 i) [
      | inl j ↦ let k = In-version_hashes_inv x (list_versions m name) j in (name, k.0, k.1, k.2)
      | inr j ↦ In-file_hashes_inv x m names j
    ]

In-file_hashes :
    (x : Hash) (m : VersionManager) (names : List (List ℕ)) (name : List ℕ)
    → In name names
    → In x (version_hashes (list_versions m name))
    → In x (file_hashes m names)
In-file_hashes x m [] name i j = absurd i
In-file_hashes x m (n ∷ names) name i j =
    (In-append x (version_hashes (list_versions m n)) (file_hashes m names)).1 (elim i [
      | inl p ↦ inl (subst (λ k. In x (version_hashes (list_versions m k))) p j)
      | inr k ↦ inr (In-file_hashes x m names name k j)
    ])

In-metadata_hashes_inv :
    (x : Hash) (s : MetadataStore) (names : List (List ℕ))
    → In x (metadata_hashes s names)
    → (name : List ℕ) × In x (block_hashes (blocks_of (query s name)))
In-metadata_hashes_inv x s [] i = absurd i
In-metadata_hashes_inv x s (name ∷ names) i =
    elim ((In-append x (block_hashes (blocks_of (query s name))) (metadata_hashes s names)).0 i) [
      | inl j ↦ (name, j)
      | inr j ↦ In-metadata_hashes_inv x s names j
    ]

In-metadata_hashes :
    (x : Hash) (s : MetadataStore) (names : List (List ℕ)) (name : List ℕ)
    → In name names
    → In x (block_hashes (blocks_of (query s name)))
    → In x (metadata_hashes s names)
In-metadata_hashes x s [] name i j = absurd i
In-metadata_hashes x s (n ∷ names) name i j =
    (In-append x (block_hashes (blocks_of (query s n))) (metadata_hashes s names)).1 (elim i [
      | inl p ↦ inl (subst (λ k. In x (block_hashes (blocks_of (query s k)))) p j)
      | inr k ↦ inr (In-metadata_hashes x s names name k j)
    ])

-- What a map has stands among its keys.
In-list_files :
    {V : Type 0} (m : List (List ℕ × V)) (name : List ℕ) (v : V)
    → Assoc.lookup bytes_eq name m ≡ some v
    → In name (list_files m)
unfolding Assoc.lookup list_files
In-list_files [] name v e = absurd (cc)
In-list_files ((j, w) ∷ m) name v e = elim (bytes_eq name j) [
  | yes p ↦ inl p
  | no n ↦ inr (In-list_files m name v (ground arith))
]

has_versions_lem :
    (m : VersionManager) (name : List ℕ) (v : VersionEntry)
    → In v (list_versions m name)
    → In name (list_files m.store)
unfolding list_versions
has_versions_lem m name v i = go (Assoc.lookup bytes_eq name m.store) refl i
  where
    go :
        (o : Option FileVersions)
        → Assoc.lookup bytes_eq name m.store ≡ o
        → In v (elim o as (λ x. List VersionEntry) [ none ↦ [] | some fv ↦ fv.versions ])
        → In name (list_files m.store)
    go none e j = absurd j
    go (some fv) e j = In-list_files m.store name fv e

has_blocks_lem :
    (s : MetadataStore) (name : List ℕ) (x : Hash)
    → In x (block_hashes (blocks_of (query s name)))
    → In name (list_files s)
unfolding query
has_blocks_lem s name x i = go (Assoc.lookup bytes_eq name s) refl i
  where
    go :
        (o : Option MetadataEntry)
        → Assoc.lookup bytes_eq name s ≡ o
        → In x (block_hashes (blocks_of o))
        → In name (list_files s)
    go none e j = absurd j
    go (some entry) e j = In-list_files s name entry e

In-referenced :
    (x : Hash) (m : VersionManager)
    → In x (collect_referenced_blocks m) ↔ In x (file_hashes m (list_files m.store))
unfolding collect_referenced_blocks
In-referenced x m =
    subst (λ set. In x set ↔ In x (file_hashes m (list_files m.store)))
      (sym (insert_files_lem m (list_files m.store) []))
      (In-insert_all_nil x (file_hashes m (list_files m.store)))

In-known :
    (x : Hash) (s : MetadataStore)
    → In x (collect_all_metadata_blocks s) ↔ In x (metadata_hashes s (list_files s))
unfolding collect_all_metadata_blocks
In-known x s =
    subst (λ set. In x set ↔ In x (metadata_hashes s (list_files s)))
      (sym (insert_metadata_lem s (list_files s) []))
      (In-insert_all_nil x (metadata_hashes s (list_files s)))

-- A hash is reported as unreferenced exactly if some file of the metadata has a block with it, and no
-- version of any file has a chunk with it.
pub collect-exact :
    (m : VersionManager) (s : MetadataStore) (h : Hash)
    → In h (collect m s).unreferenced_hashes ↔ (
        ((name : List ℕ) × In h (block_hashes (blocks_of (query s name))))
        × ((name : List ℕ) (v : VersionEntry)
            → In v (list_versions m name)
            → ¬ In h (chunk_hashes v.manifest.chunks)))
unfolding collect
collect-exact m s h =
    let d = In-difference h (collect_all_metadata_blocks s) (collect_referenced_blocks m) in
    let known = In-known h s in
    let refs = In-referenced h m in
    (
      λ i.
          let j = d.0 i in
          (
            In-metadata_hashes_inv h s (list_files s) (known.0 j.0),
            λ name v k g. j.1 (
                refs.1 (
                  In-file_hashes h m (list_files m.store) name (has_versions_lem m name v k)
                    (In-version_hashes h (list_versions m name) v k g))),
          ),
      λ i. d.1 (
        known.1
            (In-metadata_hashes h s (list_files s) i.0.0 (has_blocks_lem s i.0.0 h i.0.1) i.0.1),
        λ k. let f = In-file_hashes_inv h m (list_files m.store) (refs.0 k) in i.1 f.0 f.1 f.2 f.3,
      ),
    )
