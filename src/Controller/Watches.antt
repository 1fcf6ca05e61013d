-- ===== src/Controller/Watches.antt =====
-- The watches of internal/controller/dpfhcpbridge_controller.go: which events pass, and which bridges
-- they reconcile.
pub mod Laws
pub mod Setup
pub mod Readings
pub mod Counting
pub mod Updates
pub mod RoundTrip
use dpf_hcp_bridge_operator.Base.{
  ℕ, String, Bool, true, false, not, ◌&&◌, ◌||◌, Option, none, some, List, [], ◌∷◌, ◌==◌, nat_eq,
  is_some, if◌then◌else◌,
}
use dpf_hcp_bridge_operator.Types.{
  DpfHcpBridge, DpfHcpBridgePhase, ObjectMeta, NamespacedName, Condition, ConditionStatus,
  phase_pending, phase_failed, phase_unset, key_of,
}
use dpf_hcp_bridge_operator.Platform.{Client, Action, pure, ◌>>=◌, on_reply, list_bridges}

-- The test of all three functions of `configMapPredicate`.
unfoldable pub is_image_config_map : ObjectMeta → Bool
is_image_config_map o = o.name == "ocp-bluefield-images" && o.namespace == "dpf-hcp-bridge-system"

abbrev pub needs_image : DpfHcpBridgePhase → Bool
needs_image phase_pending = true
needs_image phase_failed = true
needs_image phase_unset = true
needs_image _ = false

-- The loops over the listed bridges: the keys of those that pass the test, in order.
unfoldable pub requests_for : (DpfHcpBridge → Bool) → List DpfHcpBridge → List NamespacedName
requests_for test [] = []
requests_for test (bridge ∷ rest) =
    if test bridge then key_of bridge.meta ∷ requests_for test rest else requests_for test rest

abbrev pub references_cluster : ObjectMeta → DpfHcpBridge → Bool
references_cluster o bridge =
    bridge.spec.dpu_cluster_ref.name == o.name
    && bridge.spec.dpu_cluster_ref.namespace == o.namespace

abbrev pub references_secret : ObjectMeta → DpfHcpBridge → Bool
references_secret o bridge =
    (bridge.spec.ssh_key_secret_ref == o.name && bridge.meta.namespace == o.namespace)
    || (bridge.spec.pull_secret_ref == o.name && bridge.meta.namespace == o.namespace)

module _ (k : Client) where
  unfoldable pub config_map_to_requests : ObjectMeta → Action (List NamespacedName)
  config_map_to_requests o = do
    reply ← list_bridges k
    pure (on_reply reply (requests_for (λ b. needs_image b.status.phase)) (λ e. []))

  unfoldable pub dpu_cluster_to_requests : ObjectMeta → Action (List NamespacedName)
  dpu_cluster_to_requests o = do
    reply ← list_bridges k
    pure (on_reply reply (requests_for (references_cluster o)) (λ e. []))

  unfoldable pub secret_to_requests : ObjectMeta → Action (List NamespacedName)
  secret_to_requests o = do
    reply ← list_bridges k
    pure (on_reply reply (requests_for (references_secret o)) (λ e. []))

abbrev pub same_status : ConditionStatus → ConditionStatus → Bool
same_status ConditionStatus.condition_true ConditionStatus.condition_true = true
same_status ConditionStatus.condition_false ConditionStatus.condition_false = true
same_status ConditionStatus.condition_unknown ConditionStatus.condition_unknown = true
same_status _ _ = false

abbrev pub count : List Condition → ℕ
count [] = 0
count (c ∷ cs) = ℕ.suc (count cs)

-- `oldMap[kind]`: a later condition of the list overwrites an earlier one of its type.
unfoldable pub last_of_type : List Condition → String → Option Condition
last_of_type [] kind = none
last_of_type (c ∷ rest) kind = elim (last_of_type rest kind) [
  | some d ↦ some d
  | none ↦ if c.kind == kind then some c else none
]

abbrev pub same_condition : Option Condition → Condition → Bool
same_condition none new_cond = false
same_condition (some old_cond) new_cond =
    same_status old_cond.status new_cond.status
    && (old_cond.reason == new_cond.reason && old_cond.message == new_cond.message)

-- The loop over the new conditions.
unfoldable pub all_same : List Condition → List Condition → Bool
all_same old_conds [] = true
all_same old_conds (c ∷ rest) =
    same_condition (last_of_type old_conds c.kind) c && all_same old_conds rest

unfoldable pub conditions_equal : List Condition → List Condition → Bool
conditions_equal old_conds new_conds =
    nat_eq (count old_conds) (count new_conds) && all_same old_conds new_conds
