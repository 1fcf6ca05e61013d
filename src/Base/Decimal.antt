-- ===== src/Base/Decimal.antt =====
-- The fuel of the decimal digits.
use Prim.Native.Nat.{ℕ, zero, suc, ◌<◌, ◌/◌}
use mathlib.Core.Path.{◌≡◌, refl}
use mathlib.Core.Logic.{inl, inr}
use mathlib.Core.Bool.{false}
use native.Mathlib.Omega.{arith}
use dpf_hcp_bridge_operator.Base.Tests.{ltb, Bool-cases}
use dpf_hcp_bridge_operator.Base.Text.{decimal_digits, decimal}

less : (n : ℕ) → ltb n 10 ≡ false → (f : ℕ) → n < suc f → n / 10 < f
less n big f h = ground (arith, big, h)

digits_same : (f g n : ℕ) → n < f → n < g → decimal_digits f n ≡ decimal_digits g n
unfolding decimal_digits
digits_same zero g n a b = absurd (omega (arith, a))
digits_same (suc f) zero n a b = absurd (omega (arith, b))
digits_same (suc f) (suc g) n a b = elim (Bool-cases (ltb n 10)) [
  | inl small ↦ rw small refl
  | inr big ↦ rw big (rw (digits_same f g (n / 10) (less n big f a) (less n big g b)) refl)
]

-- More fuel than the number gives the same text.
decimal_digits-decimal : (f n : ℕ) → n < f → decimal_digits f n ≡ decimal n
unfolding decimal
decimal_digits-decimal f n enough = digits_same f (suc n) n enough (omega arith)
