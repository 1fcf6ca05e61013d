-- ===== src/Platform/Helpers.antt =====
-- The pure helpers of apimachinery, controllerutil and HyperShift that the operator calls, and what
-- their documentation says of them.
use dpf_hcp_bridge_operator.Base.{
  ℕ, String, Bool, false, Option, none, some, List, ◌≡◌, ◌↔◌, ◌==◌, if◌then◌else◌,
}
use dpf_hcp_bridge_operator.Types.{ObjectMeta, Condition, ConditionStatus}
use dpf_hcp_bridge_operator.Platform.Replies.{Reply}

pub record Meta : Type 0 where
  -- `meta.FindStatusCondition`
  pub find_status_condition : List Condition → String → Option Condition
  -- `meta.SetStatusCondition` at the given time: the new conditions, and whether they changed.
  pub set_status_condition : ℕ → List Condition → Condition → List Condition × Bool
  -- `controllerutil.ContainsFinalizer`, `AddFinalizer` and `RemoveFinalizer`
  pub contains_finalizer : ObjectMeta → String → Bool
  pub add_finalizer : ObjectMeta → String → ObjectMeta
  pub remove_finalizer : ObjectMeta → String → ObjectMeta
  -- `metav1.IsControlledBy(object, owner)`
  pub is_controlled_by : ObjectMeta → ObjectMeta → Bool
  -- `controllerutil.SetControllerReference(owner, object, scheme)`
  pub set_controller_reference : ObjectMeta → ObjectMeta → Reply ObjectMeta
  -- `infraid.New`
  pub infra_id : String → String

-- What a reader of a condition sees, but for the time of its last transition.
pub record ConditionView : Type 0 where
  pub status : ConditionStatus
  pub reason : String
  pub message : String
  pub observed_generation : ℕ

abbrev pub view : Condition → ConditionView
view c = record {
  status = c.status;
  reason = c.reason;
  message = c.message;
  observed_generation = c.observed_generation;
}

abbrev pub view? : Option Condition → Option ConditionView
view? none = none
view? (some c) = some (view c)

abbrev pub status? : Option ConditionView → Option ConditionStatus
status? none = none
status? (some v) = some v.status

module _ (m : Meta) where
  -- The condition of one type, as a reader sees it.
  abbrev pub seen : List Condition → String → Option ConditionView
  seen cs kind = view? (m.find_status_condition cs kind)

  -- Its status alone.
  abbrev pub status_at : List Condition → String → Option ConditionStatus
  status_at cs kind = status? (seen cs kind)

-- `SetStatusCondition` writes the condition of its type and no other, and reports no change exactly
-- when a reader sees what was there before.
pub record ConditionLaws (m : Meta) : Type 0 where
  pub seen-set :
      (now : ℕ) (cs : List Condition) (c : Condition) (kind : String)
      → seen m (m.set_status_condition now cs c).0 kind
        ≡ (if c.kind == kind then some (view c) else seen m cs kind)
  pub unchanged_iff :
      (now : ℕ) (cs : List Condition) (c : Condition)
      → ((m.set_status_condition now cs c).1 ≡ false) ↔ (seen m cs c.kind ≡ some (view c))
