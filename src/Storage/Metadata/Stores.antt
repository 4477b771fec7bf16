-- ===== src/Storage/Metadata/Stores.antt =====
-- What every operation of a `MetadataStore` keeps (crates/vpn/src/storage/metadata.rs).

use lan_link.Prelude.{
  ℕ, ◌+◌, ◌<◌, ◌≡◌, refl, ap, sym, subst, ◌∙◌, List, [], ◌∷◌, All, Bool, true, false, Option, none,
  some, arith,
}
use lan_link.Prelude.Branches.{on_if, on_option, on_dec}
use lan_link.Prelude.Words.{u64_mod}
use lan_link.Prelude.Bytes.{bytes_eq}
use lan_link.Prelude.Assoc
use lan_link.Prelude.Assoc.{
  lookup-insert_self, lookup-insert_ne, lookup-remove_self, lookup-remove_ne,
}
use lan_link.Prelude.Result.{Result}
use lan_link.Storage.Chunk.{Hash, FileManifest}
use lan_link.Storage.Metadata.{
  conflict_window_secs, BlockLocation, MetadataEntry, MetadataError, MetadataStore, upsert,
  register, with_blocks, add_block_node, add_block_nodes, remove_file, mark_encrypted,
}
use lan_link.Storage.Metadata.Merging.{stamped, is_merged, merge_one, sync_from}

-- A time to which the window of conflicts is added without an overflow.
abbrev pub IsTime : ℕ → Type 0
IsTime t = t + conflict_window_secs < u64_mod

abbrev pub IsEntry : List ℕ → MetadataEntry → Type 0
IsEntry name e = (e.meta.name ≡ name) × IsTime e.meta.updated_at

-- Each entry stands under its own name, and each name once.
abbrev pub IsStore : MetadataStore → Type 0
IsStore [] = Unit {0}
IsStore ((name, e) ∷ entries) =
    IsEntry name e × (Assoc.lookup bytes_eq name entries ≡ none) × IsStore entries

pub lookup-IsEntry :
    (entries : MetadataStore) (name : List ℕ) (e : MetadataEntry)
    → IsStore entries
    → Assoc.lookup bytes_eq name entries ≡ some e
    → IsEntry name e
unfolding Assoc.lookup
lookup-IsEntry [] name e s h = absurd (cc)
lookup-IsEntry ((j, w) ∷ entries) name e s h = elim (bytes_eq name j) [
  | yes p ↦
      let same : w ≡ e = ground arith in
      subst (IsEntry name) same (subst (λ n. IsEntry n w) (sym p) s.0)
  | no n ↦ lookup-IsEntry entries name e s.2 (ground arith)
]

insert-IsStore :
    (entries : MetadataStore) (name : List ℕ) (e : MetadataEntry)
    → IsEntry name e
    → IsStore entries
    → IsStore (Assoc.insert bytes_eq name e entries)
unfolding Assoc.insert Assoc.lookup
insert-IsStore [] name e v s = (v, refl, tt)
insert-IsStore ((j, w) ∷ entries) name e v s =
    on_dec IsStore (bytes_eq name j)
      (λ p. (v, ap (λ n. Assoc.lookup bytes_eq n entries) p ∙ s.1, s.2))
      (λ n. (
        s.0,
        lookup-insert_ne bytes_eq name j e entries (λ q. n (sym q)) ∙ s.1,
        insert-IsStore entries name e v s.2,
      ))

remove-IsStore :
    (entries : MetadataStore) (name : List ℕ)
    → IsStore entries
    → IsStore (Assoc.remove bytes_eq name entries)
unfolding Assoc.remove
remove-IsStore [] name s = tt
remove-IsStore ((j, w) ∷ entries) name s =
    on_dec IsStore (bytes_eq name j) (λ p. remove-IsStore entries name s.2)
      (λ n. (
        s.0,
        lookup-remove_ne bytes_eq name j entries (λ q. n (sym q)) ∙ s.1,
        remove-IsStore entries name s.2,
      ))

-- What a call returns keeps the invariant that both of its branches keep.
on_found :
    (m : MetadataStore) (name : List ℕ) (x : MetadataStore × Result MetadataError (Unit {0}))
    (f : MetadataEntry → MetadataStore × Result MetadataError (Unit {0}))
    → (x.0 ≡ m)
    → IsStore m
    → ((e : MetadataEntry) → e.meta.name ≡ name → IsStore (f e).0)
    → IsStore
        (elim (Assoc.lookup bytes_eq name m)
          as (λ o. MetadataStore × Result MetadataError (Unit {0})) [ none ↦ x | some e ↦ f e ]).0
on_found m name x f p s h =
    on_option (λ (r : MetadataStore × Result MetadataError (Unit {0})). IsStore r.0)
      (Assoc.lookup bytes_eq name m) (λ e. subst IsStore (sym p) s)
      (λ v e. h v (lookup-IsEntry m name v s e).0)

-- The calls that change a store.
pub data Change : Type 0 where
  registers upserts : List ℕ → Hash → ℕ → Option FileManifest → List BlockLocation → List ℕ → Change
  adds_node : List ℕ → ℕ → List ℕ → Change
  adds_nodes : List ℕ → List (ℕ × List (List ℕ)) → Change
  removes encrypts : List ℕ → Change
  syncs : List MetadataEntry → Change

module _ (hash_of : List ℕ → Hash → ℕ) where
  unfoldable pub change : MetadataStore → Change → ℕ → MetadataStore
  change m (Change.registers n h size man bs src) now = (register m n h size man bs src now).0
  change m (Change.upserts n h size man bs src) now = upsert m n h size man bs src now
  change m (Change.adds_node n i node) now = (add_block_node m n i node now).0
  change m (Change.adds_nodes n nodes) now = (add_block_nodes m n nodes now).0
  change m (Change.removes n) now = (remove_file m n).0
  change m (Change.encrypts n) now = (mark_encrypted m n now).0
  change m (Change.syncs remote) now = (sync_from hash_of m remote now).0

  pub sync_from-IsStore :
      (remote : List MetadataEntry) (m : MetadataStore) (now : ℕ)
      → IsTime now
      → IsStore m
      → IsStore (sync_from hash_of m remote now).0
  unfolding sync_from merge_one stamped
  sync_from-IsStore [] m now t s = s
  sync_from-IsStore (r ∷ remote) m now t s =
      sync_from-IsStore remote (merge_one hash_of m r now).0 now t (
        on_if (λ (x : MetadataStore × Bool). IsStore x.0) (is_merged hash_of m r)
          {x = (Assoc.insert bytes_eq r.meta.name (stamped r now) m, true)} {y = (m, false)}
          (λ e. insert-IsStore m r.meta.name (stamped r now) (refl, t) s) (λ e. s))

  change-IsStore :
      (c : Change) (m : MetadataStore) (now : ℕ) → IsTime now → IsStore m → IsStore (change m c now)
  unfolding change register upsert add_block_node add_block_nodes with_blocks remove_file
      mark_encrypted
  change-IsStore (Change.registers n h size man bs src) m now t s =
      on_option (λ (x : MetadataStore × Result MetadataError (Unit {0})). IsStore x.0)
        (Assoc.lookup bytes_eq n m) (λ e. insert-IsStore m n _ (refl, t) s) (λ v e. s)
  change-IsStore (Change.upserts n h size man bs src) m now t s = insert-IsStore m n _ (refl, t) s
  change-IsStore (Change.adds_node n i node) m now t s =
      on_found m n _ _ refl s (λ v e. insert-IsStore m n _ (e, t) s)
  change-IsStore (Change.adds_nodes n nodes) m now t s =
      on_found m n _ _ refl s (λ v e. insert-IsStore m n _ (e, t) s)
  change-IsStore (Change.removes n) m now t s =
      on_found m n _ _ refl s (λ v e. remove-IsStore m n s)
  change-IsStore (Change.encrypts n) m now t s =
      on_found m n _ _ refl s (λ v e. insert-IsStore m n _ (e, t) s)
  change-IsStore (Change.syncs remote) m now t s = sync_from-IsStore remote m now t s

  -- Changes one after the other, each with its time.
  unfoldable pub changes : MetadataStore → List (Change × ℕ) → MetadataStore
  changes m [] = m
  changes m ((c, now) ∷ cs) = changes (change m c now) cs

  -- Whatever calls have changed a store, at times that do not overflow: each entry stands under its
  -- own name, each name stands once, and each entry has such a time.
  pub changes-IsStore :
      (cs : List (Change × ℕ)) (m : MetadataStore)
      → All (λ c. IsTime c.1) cs
      → IsStore m
      → IsStore (changes m cs)
  unfolding changes
  changes-IsStore [] m t s = s
  changes-IsStore ((c, now) ∷ cs) m t s =
      changes-IsStore cs (change m c now) t.1 (change-IsStore c m now t.0 s)
