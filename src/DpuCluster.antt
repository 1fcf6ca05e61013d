-- ===== src/DpuCluster.antt =====
-- The DPUCluster validator, internal/controller/dpucluster/validator.go.
pub mod Accepted
pub mod Exclusivity
pub mod Outcome
pub mod Verdict
use dpf_hcp_bridge_operator.Base.{
  String, Bool, true, false, ◌&&◌, Option, none, some, List, [], ◌∷◌, ◌==◌, if◌then◌else◌,
}
use dpf_hcp_bridge_operator.Base.Text.{sprintf}
use dpf_hcp_bridge_operator.Types.{
  DpfHcpBridge, DpuClusterReference, DpuCluster, ConditionStatus, condition_true, condition_false,
  Condition, NamespacedName, dpu_cluster_missing, cluster_type_valid, dpu_cluster_in_use,
}
use dpf_hcp_bridge_operator.Platform.{
  Client, Meta, ApiError, Feature, pure, ◌>>=◌, on_reply, on_option, normal, warning, api,
  fail_requeue, get_dpu_cluster, list_bridges, ◌and_then◌,
}
use dpf_hcp_bridge_operator.Report.{report}

-- `dpuprovisioningv1alpha1.KamajiCluster`
abbrev pub kamaji_cluster : String
kamaji_cluster = "kamaji"

-- A DPUCluster was found before: the condition is there and is False.
pub was_found : Option Condition → Bool
was_found none = false
was_found (some c) = elim c.status [ condition_false ↦ true | _ ↦ false ]

module _ (m : Meta) (k : Client) where
  unfoldable pub handle_cluster_type_invalid : DpuCluster → Feature
  handle_cluster_type_invalid d =
      report m k warning cluster_type_valid condition_false "ClusterTypeUnsupported" (
        sprintf (
          "DPUCluster '" ∷ d.meta.name ∷ "' has unsupported type '" ∷ d.kind
          ∷ "'. This operator only supports non-Kamaji cluster types" ∷ []))

  unfoldable pub handle_cluster_type_valid : DpuCluster → Feature
  handle_cluster_type_valid d =
      report m k normal cluster_type_valid condition_true "ClusterTypeValid"
        (sprintf ("DPUCluster type '" ∷ d.kind ∷ "' is supported" ∷ []))

  unfoldable pub validate_cluster_type : DpuCluster → Feature
  validate_cluster_type d cr =
      if d.kind == kamaji_cluster
      then handle_cluster_type_invalid d cr
      else handle_cluster_type_valid d cr

  unfoldable pub handle_dpu_cluster_in_use : DpuCluster → DpfHcpBridge → Feature
  handle_dpu_cluster_in_use d other =
      report m k warning dpu_cluster_in_use condition_true "DPUClusterInUse" (
        sprintf (
          "DPUCluster '" ∷ d.meta.namespace ∷ "/" ∷ d.meta.name
          ∷ "' is already in use by DPFHCPBridge '" ∷ other.meta.namespace ∷ "/" ∷ other.meta.name
          ∷ "'. Each DPUCluster can only be referenced by one DPFHCPBridge" ∷ []))

  unfoldable pub handle_dpu_cluster_available : DpuCluster → Feature
  handle_dpu_cluster_available d =
      report m k normal dpu_cluster_in_use condition_false "DPUClusterAvailable" (
        sprintf (
          "DPUCluster '" ∷ d.meta.namespace ∷ "/" ∷ d.meta.name
          ∷ "' is available (not in use by another DPFHCPBridge)" ∷ []))

-- The loop over the listed bridges: the first other one that references the DPUCluster.
unfoldable pub find_conflict : DpfHcpBridge → DpuCluster → List DpfHcpBridge → Option DpfHcpBridge
find_conflict cr d [] = none
find_conflict cr d (bridge ∷ rest) =
    let later = find_conflict cr d rest in
    if bridge.meta.namespace == cr.meta.namespace && bridge.meta.name == cr.meta.name
    then later
    else if bridge.spec.dpu_cluster_ref.name == d.meta.name
        && bridge.spec.dpu_cluster_ref.namespace == d.meta.namespace
    then some bridge
    else later

module _ (m : Meta) (k : Client) where
  unfoldable pub validate_dpu_cluster_exclusivity : DpuCluster → Feature
  validate_dpu_cluster_exclusivity d cr = do
    reply ← list_bridges k
    on_reply reply
        (λ bridges.
          on_option (find_conflict cr d bridges) (λ other. handle_dpu_cluster_in_use m k d other cr)
            (handle_dpu_cluster_available m k d cr))
        (λ e. pure (cr, fail_requeue (api e)))

  unfoldable pub handle_dpu_cluster_missing : DpuClusterReference → Feature
  handle_dpu_cluster_missing ref cr =
      if was_found (m.find_status_condition cr.status.conditions dpu_cluster_missing)
      then report m k warning dpu_cluster_missing condition_true "DPUClusterDeleted"
          (sprintf (
            "Referenced DPUCluster '" ∷ ref.name ∷ "' in namespace '" ∷ ref.namespace
            ∷ "' has been deleted. Please delete this DPFHCPBridge to clean up" ∷ []))
          cr
      else report m k warning dpu_cluster_missing condition_true "DPUClusterNotFound"
          (sprintf (
            "Referenced DPUCluster '" ∷ ref.name ∷ "' not found in namespace '" ∷ ref.namespace
            ∷ "'" ∷ []))
          cr

  unfoldable pub handle_dpu_cluster_access_denied : DpuClusterReference → ApiError → Feature
  handle_dpu_cluster_access_denied ref e =
      report m k warning dpu_cluster_missing condition_true "DPUClusterAccessDenied" (
        sprintf (
          "Operator lacks RBAC permissions to access DPUCluster '" ∷ ref.name ∷ "' in namespace '"
          ∷ ref.namespace ∷ "': " ∷ e.text ∷ []))

  unfoldable pub handle_dpu_cluster_found : DpuCluster → Feature
  handle_dpu_cluster_found d =
      report m k normal dpu_cluster_missing condition_false "DPUClusterFound" (
        sprintf
          ("DPUCluster '" ∷ d.meta.name ∷ "' found in namespace '" ∷ d.meta.namespace ∷ "'" ∷ []))

  unfoldable pub validate_dpu_cluster : Feature
  validate_dpu_cluster cr = do
    let ref = cr.spec.dpu_cluster_ref
    reply ← get_dpu_cluster k (record { namespace = ref.namespace; name = ref.name })
    on_reply reply
        (λ d.
          (validate_cluster_type m k d
              and_then validate_dpu_cluster_exclusivity d
              and_then handle_dpu_cluster_found d)
            cr)
        (λ e.
          if e.is_not_found
          then handle_dpu_cluster_missing ref cr
          else if e.is_forbidden
          then handle_dpu_cluster_access_denied ref e cr
          else pure (cr, fail_requeue (api e)))
