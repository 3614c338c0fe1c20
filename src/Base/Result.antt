-- ===== src/Base/Result.antt =====
-- Go's (value, error) results: a value, or an error of the component's own type.
use mathlib.Core.Path.{◌≡◌, refl}

pub data Result {ℓ κ} (E : Type ℓ) (A : Type κ) : Type (ℓ ⊔ κ) where
  ok : A → Result E A
  err : E → Result E A

infixl 5 ◌>>=◌
abbrev pub ◌>>=◌ {ℓ κ μ} :
    {E : Type ℓ} {A : Type κ} {B : Type μ} → Result E A → (A → Result E B) → Result E B
ok a >>= f = f a
err e >>= f = err e

-- A successful chain has gone through each of its steps.
pub >>=-cases {ℓ κ μ ν} :
    {E : Type ℓ} {A : Type κ} {B : Type μ} {P : Type ν} (m : Result E A) (f : A → Result E B)
    {b : B}
    → (m >>= f) ≡ ok b
    → ((a : A) → m ≡ ok a → f a ≡ ok b → P)
    → P
>>=-cases (ok a) f h k = k a refl h
>>=-cases (err e) f h k = absurd (cc)
