-- ===== src/Base/Laws.antt =====
-- Small laws of options and of Boolean tests.
use Prim.Native.String.{String}
use mathlib.Core.Path.{◌≡◌}
use mathlib.Core.Logic.{◌≢◌}
use mathlib.Core.Bool.{Bool, true, false, ◌&&◌}
use mathlib.Core.Option.{none, some}
use native.Mathlib.Omega.{arith}
use text.Mathlib.Text.{◌==◌}
use text.Mathlib.TextEquality.{eq_iff}

module _ {ℓ} {A : Type ℓ} where
  pub some_apart : (a b : A) → some a ≡ some b → a ≡ b
  some_apart a b e = cc e

  pub none_apart : (a : A) → ¬ (some a ≡ none)
  none_apart a e = absurd (cc e)

pub and_true : (a b : Bool) → (a && b) ≡ true → (a ≡ true) × (b ≡ true)
and_true a b e = ground (arith, e)

pub eq_apart : (a b : String) → a ≢ b → (a == b) ≡ false
eq_apart a b apart = ground (arith, eq_iff a b)
