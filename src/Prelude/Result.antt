-- ===== src/Prelude/Result.antt =====
-- `Result`, with the error first.
use mathlib.Core.Path.{◌≡◌, refl}
use mathlib.Core.Option.{Option, none, some}

pub data Result {ℓ} (E : Type ℓ) (A : Type ℓ) : Type ℓ where
  err : E → Result E A
  ok : A → Result E A

-- What a case on a result gives that is known to be a value, or an error.
pub on_ok {ℓ κ} :
    {E A : Type ℓ} {B : Type κ} (r : Result E A) (a : A) (f : E → B) (g : A → B)
    → r ≡ ok a
    → (elim r [ err e ↦ f e | ok x ↦ g x ]) ≡ g a
on_ok r a f g e = rw e refl

pub on_some {ℓ κ} :
    {A : Type ℓ} {B : Type κ} (o : Option A) (a : A) (x : B) (f : A → B)
    → o ≡ some a
    → (elim o [ none ↦ x | some v ↦ f v ]) ≡ f a
on_some o a x f e = rw e refl

-- A property of what a case on a result gives, from that of both branches.
pub on_result {ℓ κ μ} :
    {E A : Type ℓ} {B : Type κ} (P : B → Type μ) (r : Result E A) {f : E → B} {g : A → B}
    → ((e : E) → P (f e))
    → ((a : A) → P (g a))
    → P (elim r [ err e ↦ f e | ok a ↦ g a ])
on_result P (err e) h k = h e
on_result P (ok a) h k = k a
