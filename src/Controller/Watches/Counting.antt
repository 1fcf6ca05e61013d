-- ===== src/Controller/Watches/Counting.antt =====
-- The pigeonhole on lists of conditions: distinct types are at most as many as a list that has them.
use dpf_hcp_bridge_operator.Base.{
  suc, String, none, some, List, [], ◌∷◌, ◌≡◌, refl, sym, ◌∙◌, ◌⊎◌, inl, inr, ◌≤◌, ◌==◌, arith,
  eq_iff, if◌then◌else◌, Bool-cases, Option-cases,
}
use dpf_hcp_bridge_operator.Types.{Condition}
use dpf_hcp_bridge_operator.Controller.Watches.{count, last_of_type}
use dpf_hcp_bridge_operator.Controller.Watches.Readings.{
  Distinct, last_of_type-later, last_of_type-here, last_of_type-cases,
}

-- A condition of the type is in the list.
abbrev pub Has : List Condition → String → Type 0
Has cs kind = (d : Condition) × (last_of_type cs kind ≡ some d)

pub none-Has : (kind : String) (cs : List Condition) → last_of_type cs kind ≡ none → ¬ Has cs kind
none-Has kind cs absent (d, e) = absurd (cc (absent, e))

nil-Has : (kind : String) → ¬ Has [] kind
unfolding last_of_type
nil-Has kind (d, e) = absurd (cc e)

pub later-Has :
    (kind : String) (c : Condition) (cs : List Condition) → Has cs kind → Has (c ∷ cs) kind
later-Has kind c cs (d, e) = (d, last_of_type-later c d cs kind e)

pub here-Has :
    (kind : String) (c : Condition) (cs : List Condition) → c.kind ≡ kind → Has (c ∷ cs) kind
here-Has kind c cs same = elim (Option-cases (last_of_type cs kind)) [
  | inl absent ↦
      (c, rw (last_of_type-here c cs kind absent) (rw ((eq_iff c.kind kind).1 same) refl))
  | inr got ↦ later-Has kind c cs got
]

pub Has-cases :
    (kind : String) (c : Condition) (cs : List Condition)
    → Has (c ∷ cs) kind
    → (c.kind ≡ kind) ⊎ Has cs kind
Has-cases kind c cs (d, e) = elim (last_of_type-cases c d cs kind e) [
  | inl here ↦ inl here.0
  | inr later ↦ inr (d, later)
]

unfoldable without : String → List Condition → List Condition
without kind [] = []
without kind (c ∷ cs) = if c.kind == kind then without kind cs else c ∷ without kind cs

count-without : (kind : String) (cs : List Condition) → count (without kind cs) ≤ count cs
unfolding without
count-without kind [] = omega arith
count-without kind (c ∷ cs) =
    let ih = count-without kind cs in
    elim (Bool-cases (c.kind == kind)) [
      | inl same ↦ rw same (omega (arith, ih))
      | inr apart ↦ rw apart (omega (arith, ih))
    ]

-- Taking out a type that the list has makes it shorter.
without-shorter :
    (kind : String) (cs : List Condition) → Has cs kind → suc (count (without kind cs)) ≤ count cs
unfolding without
without-shorter kind [] has = absurd (nil-Has _ has)
without-shorter kind (c ∷ cs) has = elim (Bool-cases (c.kind == kind)) [
  | inl same ↦ rw same (omega (arith, count-without kind cs))
  | inr apart ↦ rw apart (elim (Has-cases _ c cs has) [
    | inl same ↦ absurd (cc ((eq_iff c.kind kind).1 same, apart))
    | inr later ↦ omega (arith, without-shorter kind cs later)
  ])
]

-- The other types stay.
without-Has :
    (kind other : String) (cs : List Condition)
    → ¬ (kind ≡ other)
    → Has cs other
    → Has (without kind cs) other
unfolding without
without-Has kind other [] apart has = absurd (nil-Has _ has)
without-Has kind other (c ∷ cs) apart has = elim (Bool-cases (c.kind == kind)) [
  | inl same ↦ rw same (elim (Has-cases _ c cs has) [
    | inl found ↦ absurd (apart (sym ((eq_iff c.kind kind).0 same) ∙ found))
    | inr later ↦ without-Has kind other cs apart later
  ])
  | inr differs ↦ rw differs (elim (Has-cases _ c cs has) [
    | inl found ↦ here-Has other c _ found
    | inr later ↦ later-Has other c _ (without-Has kind other cs apart later)
  ])
]

pub count-Distinct :
    (ys xs : List Condition)
    → Distinct ys
    → ((kind : String) → Has ys kind → Has xs kind)
    → count ys ≤ count xs
count-Distinct [] xs distinct inside = omega arith
count-Distinct (y ∷ ys) xs (fresh, distinct) inside =
    let ih = count-Distinct ys (without y.kind xs) distinct (λ kind has.
      without-Has y.kind kind xs (λ same. none-Has y.kind ys fresh (rw same has))
        (inside kind (later-Has kind y ys has))) in
    omega (arith, ih, without-shorter y.kind xs (inside y.kind (here-Has y.kind y ys refl)))
