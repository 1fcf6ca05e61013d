-- ===== src/Tests/Conditions.antt =====
-- A list of conditions that behaves as `meta.SetStatusCondition` is documented to.
use dpf_hcp_bridge_operator.Base.{
  ℕ, String, Bool, true, false, not, ◌&&◌, Option, none, some, List, [], ◌∷◌, ◌≡◌, ◌↔◌, ◌==◌,
  eq_iff, arith, nat_eq, if◌then◌else◌,
}
use dpf_hcp_bridge_operator.Types.{
  Condition, ConditionStatus, condition_true, condition_false, condition_unknown,
}
use dpf_hcp_bridge_operator.Platform.{view, view?}

abbrev pub find_condition : List Condition → String → Option Condition
find_condition [] kind = none
find_condition (x ∷ xs) kind = if x.kind == kind then some x else find_condition xs kind

abbrev pub equal_status : ConditionStatus → ConditionStatus → Bool
equal_status condition_true condition_true = true
equal_status condition_false condition_false = true
equal_status condition_unknown condition_unknown = true
equal_status _ _ = false

abbrev pub same_view : Condition → Condition → Bool
same_view x c =
    equal_status x.status c.status
    && (x.reason == c.reason
        && (x.message == c.message && nat_eq x.observed_generation c.observed_generation))

abbrev pub put_condition : List Condition → Condition → List Condition × Bool
put_condition [] c = (c ∷ [], true)
put_condition (x ∷ xs) c =
    let rest = put_condition xs c in
    if x.kind == c.kind then (c ∷ xs, not (same_view x c)) else (x ∷ rest.0, rest.1)

pub put_condition-seen :
    (cs : List Condition) (c : Condition) (kind : String)
    → view? (find_condition (put_condition cs c).0 kind)
      ≡ (if c.kind == kind then some (view c) else view? (find_condition cs kind))
put_condition-seen [] c kind = ground arith
put_condition-seen (x ∷ xs) c kind = ground (
  arith,
  eq_iff x.kind c.kind,
  eq_iff x.kind kind,
  eq_iff c.kind kind,
  put_condition-seen xs c kind,
)

equal_status_iff : (a b : ConditionStatus) → (equal_status a b ≡ true) ↔ (a ≡ b)
equal_status_iff a b = ground arith

nat_eq_iff : (a b : ℕ) → (nat_eq a b ≡ true) ↔ (a ≡ b)
nat_eq_iff a b = ground arith

pub put_condition-unchanged :
    (cs : List Condition) (c : Condition)
    → ((put_condition cs c).1 ≡ false) ↔ (view? (find_condition cs c.kind) ≡ some (view c))
put_condition-unchanged [] c = ground arith
put_condition-unchanged (x ∷ xs) c = ground (
  arith,
  eq_iff x.kind c.kind,
  eq_iff x.reason c.reason,
  eq_iff x.message c.message,
  equal_status_iff x.status c.status,
  nat_eq_iff x.observed_generation c.observed_generation,
  put_condition-unchanged xs c,
)
