-- ===== src/Tests/Traces.antt =====
-- What a given trace holds, decided.
use dpf_hcp_bridge_operator.Base.{Bool, true, false, [], ◌∷◌, ◌≡◌, refl, ◌||◌, inl, inr, Bool-cases}
use dpf_hcp_bridge_operator.Platform.{Call, Trace}
use dpf_hcp_bridge_operator.Platform.Only.{Made, Logged}

abbrev pub has_made : (Call → Bool) → Trace → Bool
has_made kind [] = false
has_made kind (c ∷ t) = kind c || has_made kind t

pub has_made-Made : (kind : Call → Bool) (t : Trace) → has_made kind t ≡ true → Made kind t
has_made-Made kind [] h = cc h
has_made-Made kind (c ∷ t) h = elim (Bool-cases (kind c)) [
  | inl this ↦ (c, this, inl refl)
  | inr other ↦ let (x, k, l) = has_made-Made kind t (rw other at h) in (x, k, inr l)
]

or_true : (a : Bool) → (a || true) ≡ true
or_true true = refl
or_true false = refl

pub has_made_lem :
    (kind : Call → Bool) (c : Call) (t : Trace)
    → kind c ≡ true
    → Logged c t
    → has_made kind t ≡ true
has_made_lem kind c [] is_kind l = absurd l
has_made_lem kind c (x ∷ t) is_kind (inl at_once) = rw at_once (rw is_kind refl)
has_made_lem kind c (x ∷ t) is_kind (inr before) =
    rw (has_made_lem kind c t is_kind before) (or_true (kind x))
