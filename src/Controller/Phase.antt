-- ===== src/Controller/Phase.antt =====
-- `updatePhaseFromConditions` and `computeReadyCondition` of
-- internal/controller/dpfhcpbridge_controller.go.
use dpf_hcp_bridge_operator.Base.{
  String, Bool, true, false, not, ◌&&◌, ◌||◌, Option, none, some, List, [], ◌∷◌, is_some,
  if◌then◌else◌,
}
use dpf_hcp_bridge_operator.Types.{
  reason_all_components_operational, reason_hosted_cluster_not_ready,
  reason_kubeconfig_not_injected, DpfHcpBridge, DpfHcpBridgePhase, Condition, ConditionStatus,
  condition_true, condition_false, condition_unknown, phase_deleting, phase_failed, phase_ready,
  phase_provisioning, phase_pending, hosted_cluster_available, kubeconfig_injected, ready_condition,
}
use dpf_hcp_bridge_operator.Platform.{Client, Meta, Action, pure, ◌>>=◌}
use dpf_hcp_bridge_operator.Report.{set_condition}

abbrev pub is_true : ConditionStatus → Bool
is_true condition_true = true
is_true condition_false = false
is_true condition_unknown = false

abbrev pub is_false : ConditionStatus → Bool
is_false condition_true = false
is_false condition_false = true
is_false condition_unknown = false

-- A condition type, and whether True is its bad status.
pub record ValidationCheck : Type 0 where
  pub cond_type : String
  pub negative : Bool

abbrev pub validation_checks : List ValidationCheck
validation_checks =
    record { cond_type = "DPUClusterMissing"; negative = true }
    ∷ record { cond_type = "ClusterTypeValid"; negative = false }
    ∷ record { cond_type = "DPUClusterInUse"; negative = true }
    ∷ record { cond_type = "SecretsValid"; negative = false }
    ∷ record { cond_type = "BlueFieldImageResolved"; negative = false }
    ∷ []

-- `isFailed`, for a condition that is set.
unfoldable pub is_failed : Bool → Option Condition → Bool
is_failed negative none = false
is_failed negative (some cond) =
    (negative && is_true cond.status) || (not negative && is_false cond.status)

-- The loop over the checks: it stops at the first failure.
unfoldable pub any_failed : Meta → List Condition → List ValidationCheck → Bool
any_failed m cs [] = false
any_failed m cs (check ∷ rest) =
    if is_failed check.negative (m.find_status_condition cs check.cond_type)
    then true
    else any_failed m cs rest

abbrev pub set_phase : DpfHcpBridge → DpfHcpBridgePhase → DpfHcpBridge
set_phase cr p = record cr { status = record cr.status { phase = p } }

-- The condition is set, and True.
unfoldable pub is_met : Option Condition → Bool
is_met none = false
is_met (some cond) = is_true cond.status

unfoldable pub update_phase_from_conditions : Meta → DpfHcpBridge → DpfHcpBridge
update_phase_from_conditions m cr =
    if is_some cr.meta.deletion_timestamp
    then set_phase cr phase_deleting
    else if any_failed m cr.status.conditions validation_checks
    then set_phase cr phase_failed
    else if is_met (m.find_status_condition cr.status.conditions "Ready")
    then set_phase cr phase_ready
    else if is_some cr.status.hosted_cluster_ref
    then set_phase cr phase_provisioning
    else set_phase cr phase_pending

module _ (m : Meta) (k : Client) where
  -- `meta.SetStatusCondition` of a Ready condition without a time and a generation.
  unfoldable pub set_ready : ConditionStatus → String → String → DpfHcpBridge → Action DpfHcpBridge
  set_ready status reason message cr = do
    (cr', _) ←
        set_condition m k
          (record {
            kind = ready_condition;
            status = status;
            reason = reason;
            message = message;
            last_transition_time = 0;
            observed_generation = 0;
          })
          cr
    pure cr'

  unfoldable pub compute_ready_condition : DpfHcpBridge → Action DpfHcpBridge
  compute_ready_condition cr =
      if not (is_met (m.find_status_condition cr.status.conditions hosted_cluster_available))
      then set_ready condition_false reason_hosted_cluster_not_ready
          "Waiting for HostedCluster to become available" cr
      else if not (is_met (m.find_status_condition cr.status.conditions kubeconfig_injected))
      then set_ready condition_false reason_kubeconfig_not_injected
          "Waiting for kubeconfig injection to DPUCluster" cr
      else set_ready condition_true reason_all_components_operational
          "All required components are operational" cr
