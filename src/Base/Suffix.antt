-- ===== src/Base/Suffix.antt =====
-- How `strings.HasSuffix` and `strings.TrimSuffix` read a text that is put together.
use Prim.Native.String.{String, ◌++◌, count}
use mathlib.Core.Path.{◌≡◌, refl, ap, sym}
use mathlib.Core.Bool.{true, false}
use mathlib.Core.Logic.{◌≢◌, inl, inr}
use native.Mathlib.Omega.{arith}
use Prim.Native.Char.{Char}
use text.Mathlib.Text.{◌==◌}
use text.Mathlib.TextEquality.{eq_iff}
use text.Mathlib.TextPositions.{eq_refl}
use text.Mathlib.TextLemmas.{length-append, length-cons, nil-append, cons-append}
use dpf_hcp_bridge_operator.Base.Tests.{Bool-cases}
use dpf_hcp_bridge_operator.Base.Text.{append, has_suffix, trim_suffix}

-- A text is shorter than the same text behind a character.
longer : (c : Char) (n s : String) → String.◌∷◌ c (n ++ s) ≢ s
longer c n s e = absurd (omega (arith, ap count e, length-append n s, length-cons c (n ++ s)))

longer-test : (c : Char) (n s : String) → (String.◌∷◌ c (n ++ s) == s) ≡ false
longer-test c n s = elim (Bool-cases (String.◌∷◌ c (n ++ s) == s)) [
  | inl same ↦ absurd (longer c n s ((eq_iff (String.◌∷◌ c (n ++ s)) s).0 same))
  | inr other ↦ other
]

ends_itself : (s : String) → has_suffix s s ≡ true
unfolding has_suffix
ends_itself String.[] = refl
ends_itself (String.◌∷◌ c s) = rw (eq_refl (String.◌∷◌ c s)) refl

trims_itself : (s : String) → trim_suffix s s ≡ ""
unfolding trim_suffix
trims_itself String.[] = refl
trims_itself (String.◌∷◌ c s) = rw (eq_refl (String.◌∷◌ c s)) refl

-- A text ends in what was put behind it.
pub has_suffix-append : (n s : String) → has_suffix (append n s) s ≡ true
unfolding has_suffix append
has_suffix-append String.[] s = rw (nil-append s) (ends_itself s)
has_suffix-append (String.◌∷◌ c n) s =
    rw (cons-append c n s, longer-test c n s) (has_suffix-append n s)

has_suffix-cons : (c : Char) (n s : String) → has_suffix (String.◌∷◌ c (n ++ s)) s ≡ true
unfolding append
has_suffix-cons c n s = rw (cons-append c n s) at (has_suffix-append (String.◌∷◌ c n) s)

-- Trimming gives back what a suffix was put behind.
pub trim_suffix-append : (n s : String) → trim_suffix (append n s) s ≡ n
unfolding trim_suffix append
trim_suffix-append String.[] s = rw (nil-append s) (trims_itself s)
trim_suffix-append (String.◌∷◌ c n) s =
    rw (cons-append c n s, longer-test c n s) (ap (String.◌∷◌ c) (trim_suffix-append n s))

-- Trimming leaves a text that does not end so.
pub trim_suffix-other : (s t : String) → has_suffix s t ≡ false → trim_suffix s t ≡ s
unfolding trim_suffix has_suffix
trim_suffix-other String.[] t h = refl
trim_suffix-other (String.◌∷◌ c s) t h = elim (Bool-cases (String.◌∷◌ c s == t)) [
  | inl same ↦ cc (rw same at h)
  | inr other ↦ rw other (ap (String.◌∷◌ c) (trim_suffix-other s t (rw other at h)))
]

-- Where neither of two endings ends in the other, no text ends in both.
pub trim_suffix-apart :
    (n s t : String)
    → has_suffix s t ≡ false
    → has_suffix t s ≡ false
    → trim_suffix (append n s) t ≡ append n s
unfolding trim_suffix append
trim_suffix-apart String.[] s t h g = rw (nil-append s) (trim_suffix-other s t h)
trim_suffix-apart (String.◌∷◌ c n) s t h g =
    rw (cons-append c n s) (elim (Bool-cases (String.◌∷◌ c (n ++ s) == t)) [
      | inl same ↦
          let e = (eq_iff (String.◌∷◌ c (n ++ s)) t).0 same in
          cc (has_suffix-cons c n s, rw (sym e) at g)
      | inr other ↦ rw other (ap (String.◌∷◌ c) (trim_suffix-apart n s t h g))
    ])
