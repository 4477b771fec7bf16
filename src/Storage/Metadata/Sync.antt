-- ===== src/Storage/Metadata/Sync.antt =====
-- What two stores agree on that take each other's entries (crates/vpn/src/storage/metadata.rs).
use mathlib.Core.Option
use mathlib.Core.Option.{some-injective}
use lan_link.Prelude.{
  not, ℕ_discrete, ℕ, ◌+◌, ◌<◌, ◌≡◌, ◌≢◌, ◌⊎◌, inl, inr, refl, ap, sym, subst, ◌∙◌, List, [], ◌∷◌,
  Bool, true, false, Option, none, some, if◌then◌else◌, if_pos, if_neg, dec_lt, arith,
}
use lan_link.Prelude.Branches.{on_if}
use lan_link.Prelude.Bytes.{bytes_eq}
use lan_link.Prelude.Assoc
use lan_link.Prelude.Assoc.{lookup-insert_self, lookup-insert_ne}
use lan_link.Storage.Chunk.{Hash}
use lan_link.Storage.Metadata.{
  conflict_window_secs, MetadataEntry, MetadataStore, query, all_entries,
}
use lan_link.Storage.Metadata.Merging.{
  hash_entry, should_merge, stamped, is_merged, merge_one, sync_from,
}
use lan_link.Storage.Metadata.Stores.{IsTime, IsEntry, IsStore, lookup-IsEntry}

-- The hash of the file of an entry that is found.
abbrev pub hash_in : Option MetadataEntry → Option Hash
hash_in o = Option.map (λ e. e.meta.file_hash) o

module _ (hash_of : List ℕ → Hash → ℕ) where
  -- What a store has of a file after it took what another has of it.
  unfoldable pub resolve : Option MetadataEntry → Option MetadataEntry → ℕ → Option MetadataEntry
  resolve local none now = local
  resolve none (some remote) now = some (stamped remote now)
  resolve (some local) (some remote) now =
      if should_merge hash_of local remote then some (stamped remote now) else some local

  query-merge_one :
      (m : MetadataStore) (r : MetadataEntry) (now : ℕ)
      → query (merge_one hash_of m r now).0 r.meta.name ≡ resolve (query m r.meta.name) (some r) now
  unfolding query merge_one is_merged resolve
  query-merge_one m r now =
      let l = lookup-insert_self bytes_eq r.meta.name (stamped r now) m in ground (arith, l)

  query-merge_one_ne :
      (m : MetadataStore) (r : MetadataEntry) (now : ℕ) (name : List ℕ)
      → name ≢ r.meta.name
      → query (merge_one hash_of m r now).0 name ≡ query m name
  unfolding query merge_one
  query-merge_one_ne m r now name n =
      on_if
        (λ (x : MetadataStore × Bool).
          Assoc.lookup bytes_eq name x.0 ≡ Assoc.lookup bytes_eq name m)
        (is_merged hash_of m r) {x = (Assoc.insert bytes_eq r.meta.name (stamped r now) m, true)}
        {y = (m, false)} (λ e. lookup-insert_ne bytes_eq r.meta.name name (stamped r now) m n)
        (λ e. refl)

  -- What is found of a file after the entries of another store were taken, one after the other.
  pub query-sync_from :
      (b a : MetadataStore) (now : ℕ) (name : List ℕ)
      → IsStore b
      → query (sync_from hash_of a (all_entries b) now).0 name
        ≡ resolve (query a name) (query b name) now
  unfolding query sync_from all_entries Assoc.lookup resolve
  query-sync_from [] a now name s = refl
  query-sync_from ((j, r) ∷ b) a now name s =
      let ih = query-sync_from b (merge_one hash_of a r now).0 now name s.2 in
      elim (bytes_eq name j) [
        | yes p ↦
            let same : name ≡ r.meta.name = p ∙ sym s.0.0 in
            let gone : query b name ≡ none = ap (λ n. query b n) p ∙ s.1 in
            ih
            ∙ ap (λ o. resolve (query (merge_one hash_of a r now).0 name) o now) gone
            ∙ subst (λ n. query (merge_one hash_of a r now).0 n ≡ resolve (query a n) (some r) now)
                (sym same) (query-merge_one a r now)
            ∙ ap (λ o. resolve (query a name) o now) (sym (if_pos (bytes_eq name j) p _ _))
        | no n ↦
            ih
            ∙ ap (λ o. resolve o (query b name) now)
                (query-merge_one_ne a r now name (λ e. n (e ∙ s.0.0)))
            ∙ ap (λ o. resolve (query a name) o now) (sym (if_neg (bytes_eq name j) n _ _))
      ]

  -- The hasher tells two entries apart whose times lie within the window of conflicts: where their
  -- files differ, so do their numbers.
  abbrev pub IsToldApart : List ℕ → Option MetadataEntry → Option MetadataEntry → Type 0
  IsToldApart name none r = Unit {0}
  IsToldApart name (some l) none = Unit {0}
  IsToldApart name (some l) (some r) =
      ¬ (l.meta.updated_at + conflict_window_secs < r.meta.updated_at)
      → ¬ (r.meta.updated_at + conflict_window_secs < l.meta.updated_at)
      → hash_of name l.meta.file_hash ≡ hash_of name r.meta.file_hash
      → l.meta.file_hash ≡ r.meta.file_hash

  module _ (l r : MetadataEntry) (now later : ℕ) where
    -- Which entry is kept on the side of `l`, and on that of `r`.
    abbrev kept : Bool → Bool → Option Hash × Option Hash
    kept b c = (
      hash_in (if b then some (stamped r now) else some l),
      hash_in (if c then some (stamped l later) else some r),
    )

    one_side : (b c : Bool) → b ≡ not c → (kept b c).0 ≡ (kept b c).1
    unfolding stamped
    one_side true false e = refl
    one_side false true e = refl
    one_side true true e = absurd (cc)
    one_side false false e = absurd (cc)

    -- One of two entries is merged, but for two that the hasher takes for one.
    should_merge-opposite :
        IsTime l.meta.updated_at
        → IsTime r.meta.updated_at
        → hash_entry hash_of l ≢ hash_entry hash_of r
        → should_merge hash_of l r ≡ not (should_merge hash_of r l)
    unfolding should_merge
    should_merge-opposite t u n = elim (dec_lt (hash_entry hash_of l) (hash_entry hash_of r)) [
      | yes p ↦ ground arith
      | no m ↦
          let p : hash_entry hash_of r < hash_entry hash_of l = omega (arith, n, m) in ground arith
    ]

    should_merge-same :
        IsTime l.meta.updated_at
        → IsTime r.meta.updated_at
        → hash_entry hash_of l ≡ hash_entry hash_of r
        → (should_merge hash_of l r ≡ not (should_merge hash_of r l))
          ⊎ ((should_merge hash_of l r ≡ false)
              × (should_merge hash_of r l ≡ false)
              × ¬ (l.meta.updated_at + conflict_window_secs < r.meta.updated_at)
              × ¬ (r.meta.updated_at + conflict_window_secs < l.meta.updated_at))
    unfolding should_merge
    should_merge-same t u e =
        elim (dec_lt (l.meta.updated_at + conflict_window_secs) r.meta.updated_at) [
          | yes p ↦ inl (ground arith)
          | no m ↦ elim (dec_lt (r.meta.updated_at + conflict_window_secs) l.meta.updated_at) [
            | yes q ↦ inl (ground arith)
            | no k ↦ inr (ground arith, ground arith, m, k)
          ]
        ]

  resolve-agrees :
      (name : List ℕ) (l r : MetadataEntry) (now later : ℕ)
      → IsEntry name l
      → IsEntry name r
      → IsToldApart name (some l) (some r)
      → hash_in (resolve (some l) (some r) now) ≡ hash_in (resolve (some r) (some l) later)
  unfolding resolve hash_entry
  resolve-agrees name l r now later p q t =
      elim (ℕ_discrete (hash_entry hash_of l) (hash_entry hash_of r)) [
        | no n ↦ one_side l r now later _ _ (should_merge-opposite l r now later p.1 q.1 n)
        | yes e ↦ elim (should_merge-same l r now later p.1 q.1 e) [
          | inl o ↦ one_side l r now later _ _ o
          | inr o ↦
              let same = t o.2 o.3 (
                ap (λ n. hash_of n l.meta.file_hash) (sym p.0)
                ∙ e
                ∙ ap (λ n. hash_of n r.meta.file_hash) q.0) in
              rw (o.0, o.1) (ap some same)
        ]
      ]

  options_agree :
      (name : List ℕ) (l r : Option MetadataEntry) (now later : ℕ)
      → ((e : MetadataEntry) → l ≡ some e → IsEntry name e)
      → ((e : MetadataEntry) → r ≡ some e → IsEntry name e)
      → IsToldApart name l r
      → hash_in (resolve l r now) ≡ hash_in (resolve r l later)
  unfolding resolve stamped
  options_agree name none none now later p q t = refl
  options_agree name none (some r) now later p q t = refl
  options_agree name (some l) none now later p q t = refl
  options_agree name (some l) (some r) now later p q t =
      resolve-agrees name l r now later (p l refl) (q r refl) t

  -- Two stores that take each other's entries then have the same hash of a file, or none both: if the
  -- hasher tells the two entries of the file apart, in case their times lie within five seconds.
  pub sync_from-agree :
      (a b : MetadataStore) (now later : ℕ) (name : List ℕ)
      → IsStore a
      → IsStore b
      → IsToldApart name (query a name) (query b name)
      → hash_in (query (sync_from hash_of a (all_entries b) now).0 name)
        ≡ hash_in (query (sync_from hash_of b (all_entries a) later).0 name)
  unfolding query
  sync_from-agree a b now later name s t told =
      ap hash_in (query-sync_from b a now name t)
      ∙ options_agree name (query a name) (query b name) now later
          (λ e h. lookup-IsEntry a name e s h) (λ e h. lookup-IsEntry b name e t h) told
      ∙ ap hash_in (sym (query-sync_from a b later name s))
