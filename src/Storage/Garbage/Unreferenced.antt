-- ===== src/Storage/Garbage/Unreferenced.antt =====
-- The sets of hashes as lists that are put in (crates/vpn/src/storage/gc.rs).

use lan_link.Prelude.{
  ℕ, ◌≡◌, ◌↔◌, ◌⊎◌, inl, inr, refl, ap, sym, subst, ◌∙◌, List, [], ◌∷◌, ◌++◌, arith, Bool, true,
  false,
}
use lan_link.Prelude.Branches.{on_if, on_dec}
use lan_link.Prelude.Bytes.{bytes_eq}
use lan_link.Storage.Chunk.{Hash, ChunkMeta}
use lan_link.Storage.Metadata.{BlockLocation, MetadataStore, query}
use lan_link.Storage.Version.{VersionEntry, VersionManager, list_versions}
use lan_link.Storage.Garbage.{
  contains, insert, difference, insert_chunks, insert_versions, insert_files, insert_blocks,
  blocks_of, insert_metadata,
}

-- The element is in the list.
abbrev pub In : {A : Type 0} → A → List A → Type 0
In x [] = ⊥
In x (y ∷ ys) = (x ≡ y) ⊎ In x ys

-- The hashes of chunks, and those of blocks.
abbrev pub chunk_hashes : List ChunkMeta → List Hash
chunk_hashes [] = []
chunk_hashes (c ∷ chunks) = c.hash ∷ chunk_hashes chunks

abbrev pub block_hashes : List BlockLocation → List Hash
block_hashes [] = []
block_hashes (b ∷ blocks) = b.hash ∷ block_hashes blocks

not_both : (b : Bool) → b ≡ false → b ≡ true → ⊥
not_both b e f = cc

contains-In : (h : Hash) (set : List Hash) → contains h set ≡ true → In h set
unfolding contains
contains-In h [] e = absurd (cc)
contains-In h (g ∷ set) e = elim (bytes_eq h g) [
  | yes p ↦ inl p
  | no n ↦ inr (contains-In h set (ground arith))
]

In-contains : (h : Hash) (set : List Hash) → In h set → contains h set ≡ true
unfolding contains
In-contains h [] i = absurd i
In-contains h (g ∷ set) i =
    on_dec (λ b. b ≡ true) (bytes_eq h g) (λ p. refl)
      (λ n. elim i [ inl p ↦ absurd (n p) | inr j ↦ In-contains h set j ])

In-insert_inv : (x h : Hash) (set : List Hash) → In x (insert h set) → (x ≡ h) ⊎ In x set
unfolding insert
In-insert_inv x h set =
    on_if (λ r. In x r → (x ≡ h) ⊎ In x set) (contains h set) (λ e i. inr i) (λ e i. i)

In-insert : (x h : Hash) (set : List Hash) → (x ≡ h) ⊎ In x set → In x (insert h set)
unfolding insert
In-insert x h set =
    on_if (λ r. (x ≡ h) ⊎ In x set → In x r) (contains h set)
      (λ e i. elim i [ inl p ↦ subst (λ y. In y set) (sym p) (contains-In h set e) | inr j ↦ j ])
      (λ e i. i)

pub In-difference :
    (x : Hash) (set other : List Hash) → In x (difference set other) ↔ (In x set × ¬ In x other)
unfolding difference
In-difference x [] other = (λ i. absurd i, λ i. i.0)
In-difference x (h ∷ set) other =
    let ih = In-difference x set other in
    on_if (λ r. In x r ↔ (In x (h ∷ set) × ¬ In x other)) (contains h other)
      (λ e. (
        λ i. let j = ih.0 i in (inr j.0, j.1),
        λ i. elim i.0 [
          | inl p ↦ absurd (i.1 (subst (λ y. In y other) (sym p) (contains-In h other e)))
          | inr j ↦ ih.1 (j, i.1)
        ],
      ))
      (λ e. (
        λ i. elim i [
          | inl p ↦ (
            inl p,
            λ k. not_both (contains h other) e (In-contains h other (subst (λ y. In y other) p k)),
          )
          | inr j ↦ let k = ih.0 j in (inr k.0, k.1)
        ],
        λ i. elim i.0 [ inl p ↦ inl p | inr j ↦ inr (ih.1 (j, i.1)) ],
      ))

-- The hashes, one after the other, into a set.
abbrev pub insert_all : List Hash → List Hash → List Hash
insert_all [] set = set
insert_all (h ∷ hashes) set = insert_all hashes (insert h set)

pub In-insert_all :
    (x : Hash) (hashes set : List Hash) → In x (insert_all hashes set) ↔ (In x hashes ⊎ In x set)
In-insert_all x [] set = (λ i. inr i, λ i. elim i [ inl a ↦ absurd a | inr j ↦ j ])
In-insert_all x (h ∷ hashes) set =
    let ih = In-insert_all x hashes (insert h set) in
    (
      λ i. elim (ih.0 i) [
        | inl j ↦ inl (inr j)
        | inr j ↦ elim (In-insert_inv x h set j) [ inl p ↦ inl (inl p) | inr k ↦ inr k ]
      ],
      λ i. ih.1 (elim i [
        | inl (inl p) ↦ inr (In-insert x h set (inl p))
        | inl (inr j) ↦ inl j
        | inr j ↦ inr (In-insert x h set (inr j))
      ]),
    )

insert_all-append :
    (xs ys set : List Hash) → insert_all (xs ++ ys) set ≡ insert_all ys (insert_all xs set)
insert_all-append [] ys set = refl
insert_all-append (x ∷ xs) ys set = insert_all-append xs ys (insert x set)

pub In-append : (x : Hash) (xs ys : List Hash) → In x (xs ++ ys) ↔ (In x xs ⊎ In x ys)
In-append x [] ys = (λ i. inr i, λ i. elim i [ inl a ↦ absurd a | inr j ↦ j ])
In-append x (h ∷ xs) ys =
    let ih = In-append x xs ys in
    (
      λ i. elim i [
        | inl p ↦ inl (inl p)
        | inr j ↦ elim (ih.0 j) [ inl k ↦ inl (inr k) | inr k ↦ inr k ]
      ],
      λ i. elim i [
        | inl (inl p) ↦ inl p
        | inl (inr j) ↦ inr (ih.1 (inl j))
        | inr j ↦ inr (ih.1 (inr j))
      ],
    )

abbrev pub version_hashes : List VersionEntry → List Hash
version_hashes [] = []
version_hashes (v ∷ versions) = chunk_hashes v.manifest.chunks ++ version_hashes versions

abbrev pub file_hashes : VersionManager → List (List ℕ) → List Hash
file_hashes m [] = []
file_hashes m (name ∷ names) = version_hashes (list_versions m name) ++ file_hashes m names

abbrev pub metadata_hashes : MetadataStore → List (List ℕ) → List Hash
metadata_hashes s [] = []
metadata_hashes s (name ∷ names) =
    block_hashes (blocks_of (query s name)) ++ metadata_hashes s names

insert_chunks_lem :
    (chunks : List ChunkMeta) (set : List Hash)
    → insert_chunks chunks set ≡ insert_all (chunk_hashes chunks) set
unfolding insert_chunks
insert_chunks_lem [] set = refl
insert_chunks_lem (c ∷ chunks) set = insert_chunks_lem chunks (insert c.hash set)

insert_blocks_lem :
    (blocks : List BlockLocation) (set : List Hash)
    → insert_blocks blocks set ≡ insert_all (block_hashes blocks) set
unfolding insert_blocks
insert_blocks_lem [] set = refl
insert_blocks_lem (b ∷ blocks) set = insert_blocks_lem blocks (insert b.hash set)

insert_versions_lem :
    (versions : List VersionEntry) (set : List Hash)
    → insert_versions versions set ≡ insert_all (version_hashes versions) set
unfolding insert_versions
insert_versions_lem [] set = refl
insert_versions_lem (v ∷ versions) set =
    ap (insert_versions versions) (insert_chunks_lem v.manifest.chunks set)
    ∙ insert_versions_lem versions (insert_all (chunk_hashes v.manifest.chunks) set)
    ∙ sym (insert_all-append (chunk_hashes v.manifest.chunks) (version_hashes versions) set)

pub insert_files_lem :
    (m : VersionManager) (names : List (List ℕ)) (set : List Hash)
    → insert_files m names set ≡ insert_all (file_hashes m names) set
unfolding insert_files
insert_files_lem m [] set = refl
insert_files_lem m (name ∷ names) set =
    let hashes = version_hashes (list_versions m name) in
    ap (insert_files m names) (insert_versions_lem (list_versions m name) set)
    ∙ insert_files_lem m names (insert_all hashes set)
    ∙ sym (insert_all-append hashes (file_hashes m names) set)

pub insert_metadata_lem :
    (s : MetadataStore) (names : List (List ℕ)) (set : List Hash)
    → insert_metadata s names set ≡ insert_all (metadata_hashes s names) set
unfolding insert_metadata
insert_metadata_lem s [] set = refl
insert_metadata_lem s (name ∷ names) set =
    let hashes = block_hashes (blocks_of (query s name)) in
    ap (insert_metadata s names) (insert_blocks_lem (blocks_of (query s name)) set)
    ∙ insert_metadata_lem s names (insert_all hashes set)
    ∙ sym (insert_all-append hashes (metadata_hashes s names) set)
