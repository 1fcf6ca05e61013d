-- ===== src/Base/Result.antt =====
-- A pair `(value, error)` of which one part counts.
use mathlib.Core.Path.{◌≡◌, refl}
use mathlib.Core.Logic.{◌⊎◌, inl, inr}

pub data Result {ℓ κ} (E : Type ℓ) (A : Type κ) : Type (ℓ ⊔ κ) where
  success : A → Result E A
  failure : E → Result E A

-- `if err != nil { … }`
unfoldable pub on_result {ℓ κ μ} :
    {E : Type ℓ} {A : Type κ} {B : Type μ} → Result E A → (A → B) → (E → B) → B
on_result (success a) f g = f a
on_result (failure e) f g = g e

pub Result-cases {ℓ κ} :
    {E : Type ℓ} {A : Type κ} (r : Result E A)
    → ((a : A) × (r ≡ success a)) ⊎ ((x : E) × (r ≡ failure x))
Result-cases (success a) = inl (a, refl)
Result-cases (failure x) = inr (x, refl)
