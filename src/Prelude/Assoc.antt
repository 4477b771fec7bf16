-- ===== src/Prelude/Assoc.antt =====
-- `HashMap` as an association list. The order of the list stands for the order in which the map
-- is iterated, which the standard library leaves open.
use Prim.Native.Nat.{suc, ◌≤◌}
use mathlib.Core.Path.{◌≡◌, refl, subst}
use mathlib.Core.Logic.{◌≢◌, ite}
use mathlib.Core.Option
use mathlib.Core.Option.{Option, none, some, some-injective}
use mathlib.Core.List.{List, [], ◌∷◌}
use native.Mathlib.Omega.{arith}
use lan_link.Prelude.Lists.{All, length}

module _ {ℓ} {K V : Type ℓ} (dec : Discrete K) where
  unfoldable pub lookup : K → List (K × V) → Option V
  lookup k [] = none
  lookup k ((j, v) ∷ m) = ite (dec k j) (some v) (lookup k m)

  unfoldable pub insert : K → V → List (K × V) → List (K × V)
  insert k v [] = (k, v) ∷ []
  insert k v ((j, w) ∷ m) = ite (dec k j) ((k, v) ∷ m) ((j, w) ∷ insert k v m)

  unfoldable pub remove : K → List (K × V) → List (K × V)
  remove k [] = []
  remove k ((j, w) ∷ m) = ite (dec k j) (remove k m) ((j, w) ∷ remove k m)

  -- `if let Some(v) = map.get_mut(k) { *v = f(v) }`
  unfoldable pub modify : K → (V → V) → List (K × V) → List (K × V)
  modify k f [] = []
  modify k f ((j, w) ∷ m) = ite (dec k j) ((j, f w) ∷ m) ((j, w) ∷ modify k f m)

  pub lookup-insert_self : (k : K) (v : V) (m : List (K × V)) → lookup k (insert k v m) ≡ some v
  unfolding lookup insert
  lookup-insert_self k v [] = ground arith
  lookup-insert_self k v ((j, w) ∷ m) = ground (arith, lookup-insert_self k v m)

  pub lookup-insert_ne :
      (k q : K) (v : V) (m : List (K × V)) → q ≢ k → lookup q (insert k v m) ≡ lookup q m
  unfolding lookup insert
  lookup-insert_ne k q v [] h = ground arith
  lookup-insert_ne k q v ((j, w) ∷ m) h = ground (arith, lookup-insert_ne k q v m)

  pub lookup-remove_self : (k : K) (m : List (K × V)) → lookup k (remove k m) ≡ none
  unfolding lookup remove
  lookup-remove_self k [] = refl
  lookup-remove_self k ((j, w) ∷ m) = ground (arith, lookup-remove_self k m)

  pub lookup-remove_ne : (k q : K) (m : List (K × V)) → q ≢ k → lookup q (remove k m) ≡ lookup q m
  unfolding lookup remove
  lookup-remove_ne k q [] h = refl
  lookup-remove_ne k q ((j, w) ∷ m) h = ground (arith, lookup-remove_ne k q m)

  pub lookup-modify_self :
      (k : K) (f : V → V) (m : List (K × V)) → lookup k (modify k f m) ≡ Option.map f (lookup k m)
  unfolding lookup modify
  lookup-modify_self k f [] = refl
  lookup-modify_self k f ((j, w) ∷ m) = ground (arith, lookup-modify_self k f m)

  pub lookup-modify_ne :
      (k q : K) (f : V → V) (m : List (K × V)) → q ≢ k → lookup q (modify k f m) ≡ lookup q m
  unfolding lookup modify
  lookup-modify_ne k q f [] h = refl
  lookup-modify_ne k q f ((j, w) ∷ m) h = ground (arith, lookup-modify_ne k q f m)

  pub length-insert_le : (k : K) (v : V) (m : List (K × V)) → length (insert k v m) ≤ suc (length m)
  unfolding insert
  length-insert_le k v [] = omega arith
  length-insert_le k v ((j, w) ∷ m) = ground (arith, length-insert_le k v m)

  pub length-remove_le : (k : K) (m : List (K × V)) → length (remove k m) ≤ length m
  unfolding remove
  length-remove_le k [] = omega arith
  length-remove_le k ((j, w) ∷ m) = ground (arith, length-remove_le k m)

  pub length-modify : (k : K) (f : V → V) (m : List (K × V)) → length (modify k f m) ≡ length m
  unfolding modify
  length-modify k f [] = refl
  length-modify k f ((j, w) ∷ m) = ground (arith, length-modify k f m)

  module _ (P : V → Type ℓ) where
    -- A predicate on the values is kept by what keeps it at the value that is written.
    pub All-insert :
        (k : K) (v : V) (m : List (K × V))
        → P v
        → All (λ e. P e.1) m
        → All (λ e. P e.1) (insert k v m)
    unfolding insert
    All-insert k v [] h a = (h, tt)
    All-insert k v ((j, w) ∷ m) h a = ground (arith, All-insert k v m h a.1)

    pub All-remove : (k : K) (m : List (K × V)) → All (λ e. P e.1) m → All (λ e. P e.1) (remove k m)
    unfolding remove
    All-remove k [] a = tt
    All-remove k ((j, w) ∷ m) a = ground (arith, All-remove k m a.1)

    pub All-modify :
        (k : K) (f : V → V) (m : List (K × V))
        → ((v : V) → P v → P (f v))
        → All (λ e. P e.1) m
        → All (λ e. P e.1) (modify k f m)
    unfolding modify
    All-modify k f [] h a = tt
    All-modify k f ((j, w) ∷ m) h a = ground (arith, h w a.0, All-modify k f m h a.1)

    pub All-lookup :
        (k : K) (m : List (K × V)) (v : V) → All (λ e. P e.1) m → lookup k m ≡ some v → P v
    unfolding lookup
    All-lookup k [] v a e = absurd (cc)
    All-lookup k ((j, w) ∷ m) v a e = elim (dec k j) [
      | yes p ↦ let q : w ≡ v = ground arith in subst P q a.0
      | no p ↦ All-lookup k m v a.1 (ground arith)
    ]
