-- ===== src/Controller/Watches/Readings.antt =====
-- What the comparison of conditions in internal/controller/dpfhcpbridge_controller.go reads of them.
use dpf_hcp_bridge_operator.Base.{
  some_apart, none_apart, String, true, Option, none, some, List, [], ◌∷◌, ◌≡◌, refl, ap, sym, ◌∙◌,
  ◌↔◌, ◌⊎◌, inl, inr, ◌==◌, arith, eq_iff, if◌then◌else◌, Bool-cases, Option-cases,
}
use dpf_hcp_bridge_operator.Types.{Condition, ConditionStatus}
use dpf_hcp_bridge_operator.Controller.Watches.{same_status, same_condition, last_of_type}

-- What a reader is told of a condition, but for its generation and its time.
pub record Told : Type 0 where
  pub status : ConditionStatus
  pub reason : String
  pub message : String

abbrev pub told : Condition → Told
told c = record { status = c.status; reason = c.reason; message = c.message }

abbrev pub told? : Option Condition → Option Told
told? none = none
told? (some c) = some (told c)

-- No type occurs twice.
abbrev pub Distinct : List Condition → Type 0
Distinct [] = Unit
Distinct (c ∷ cs) = (last_of_type cs c.kind ≡ none) × Distinct cs

same_status_refl : (s : ConditionStatus) → same_status s s ≡ true
same_status_refl ConditionStatus.condition_true = refl
same_status_refl ConditionStatus.condition_false = refl
same_status_refl ConditionStatus.condition_unknown = refl

same_status_lem : (s t : ConditionStatus) → same_status s t ≡ true → s ≡ t
same_status_lem ConditionStatus.condition_true ConditionStatus.condition_true e = refl
same_status_lem ConditionStatus.condition_true ConditionStatus.condition_false e = absurd (cc e)
same_status_lem ConditionStatus.condition_true ConditionStatus.condition_unknown e = absurd (cc e)
same_status_lem ConditionStatus.condition_false ConditionStatus.condition_true e = absurd (cc e)
same_status_lem ConditionStatus.condition_false ConditionStatus.condition_false e = refl
same_status_lem ConditionStatus.condition_false ConditionStatus.condition_unknown e = absurd (cc e)
same_status_lem ConditionStatus.condition_unknown ConditionStatus.condition_true e = absurd (cc e)
same_status_lem ConditionStatus.condition_unknown ConditionStatus.condition_false e = absurd (cc e)
same_status_lem ConditionStatus.condition_unknown ConditionStatus.condition_unknown e = refl

same_parts :
    (d c : Condition)
    → (same_condition (some d) c ≡ true)
      ↔ ((same_status d.status c.status ≡ true) × (d.reason ≡ c.reason) × (d.message ≡ c.message))
same_parts d c = ground (arith, eq_iff d.reason c.reason, eq_iff d.message c.message)

Told-ext : (a b : Told) → a.status ≡ b.status → a.reason ≡ b.reason → a.message ≡ b.message → a ≡ b
Told-ext a b s r t = cc (s, r, t)

told_apart : (a b : Told) → Option.some a ≡ some b → a ≡ b
told_apart a b e = cc e

pub same_condition_iff :
    (o : Option Condition) (c : Condition) → (same_condition o c ≡ true) ↔ (told? o ≡ some (told c))
same_condition_iff none c = (λ e. absurd (cc e), λ e. absurd (cc e))
same_condition_iff (some d) c = (
  (λ e.
      let (s, r, t) = (same_parts d c).0 e in
      ap some (Told-ext (told d) (told c) (same_status_lem d.status c.status s) r t)),
  (λ e.
      let same = told_apart (told d) (told c) e in
      let status : d.status ≡ c.status = ap (λ q. q.status) same in
      (same_parts d c).1
        (rw status (same_status_refl c.status), ap (λ q. q.reason) same, ap (λ q. q.message) same)),
)

pub last_of_type-later :
    (c d : Condition) (cs : List Condition) (kind : String)
    → last_of_type cs kind ≡ some d
    → last_of_type (c ∷ cs) kind ≡ some d
unfolding last_of_type
last_of_type-later c d cs kind e = rw e refl

pub last_of_type-here :
    (c : Condition) (cs : List Condition) (kind : String)
    → last_of_type cs kind ≡ none
    → last_of_type (c ∷ cs) kind ≡ (if c.kind == kind then some c else none)
unfolding last_of_type
last_of_type-here c cs kind e = rw e refl

pub last_of_type-cases :
    (c d : Condition) (cs : List Condition) (kind : String)
    → last_of_type (c ∷ cs) kind ≡ some d
    → ((c.kind ≡ kind) × (c ≡ d)) ⊎ (last_of_type cs kind ≡ some d)
last_of_type-cases c d cs kind e = elim (Option-cases (last_of_type cs kind)) [
  | inl absent ↦
      let here = sym (last_of_type-here c cs kind absent) ∙ e in
      elim (Bool-cases (c.kind == kind)) [
        | inl same ↦ inl ((eq_iff c.kind kind).0 same, some_apart c d (rw same at here))
        | inr apart ↦ absurd (none_apart d (sym (rw apart at here)))
      ]
  | inr (x, got) ↦ inr (got ∙ sym (last_of_type-later c x cs kind got) ∙ e)
]
