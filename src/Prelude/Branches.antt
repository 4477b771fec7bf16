-- ===== src/Prelude/Branches.antt =====
-- A property of what branching code returns, from the property of each branch and what holds there.
use mathlib.Core.Path.{◌≡◌, refl}
use mathlib.Core.Logic.{ite}
use mathlib.Core.Bool.{Bool, true, false}
use lan_link.Prelude.Tests.{if◌then◌else◌}
use mathlib.Core.Option
use mathlib.Core.Option.{Option, none, some, some-injective}

pub on_if {ℓ κ} :
    {A : Type ℓ} (P : A → Type κ) (b : Bool) {x y : A}
    → (b ≡ true → P x)
    → (b ≡ false → P y)
    → P (if b then x else y)
on_if P true t f = t refl
on_if P false t f = f refl

pub on_option {ℓ κ μ} :
    {A : Type ℓ} {B : Type μ} (P : A → Type κ) (o : Option B) {x : A} {f : B → A}
    → (o ≡ none → P x)
    → ((v : B) → o ≡ some v → P (f v))
    → P (elim o [ none ↦ x | some v ↦ f v ])
on_option P none n s = n refl
on_option P (some v) n s = s v refl

-- What a mapped option that is there was made from.
pub map-some_inv {ℓ κ} :
    {A : Type ℓ} {B : Type κ} (f : A → B) (o : Option A) (b : B)
    → Option.map f o ≡ some b
    → (a : A) × (o ≡ some a) × (f a ≡ b)
map-some_inv f none b e = absurd (cc)
map-some_inv f (some a) b e = (a, refl, some-injective (f a) b e)

pub on_dec {ℓ κ μ} :
    {A : Type ℓ} {Q : Type μ} (P : A → Type κ) (d : Dec Q) {x y : A}
    → (Q → P x)
    → (¬ Q → P y)
    → P (ite d x y)
on_dec P (yes q) t f = t q
on_dec P (no n) t f = f n
