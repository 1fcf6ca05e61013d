-- ===== src/Controller/Reconcile.antt =====
-- `Reconcile` of internal/controller/dpfhcpbridge_controller.go, cut at the comments that head its
-- parts.
pub mod Unwritten
pub mod Image
pub mod Accepted
pub mod Quiet
pub mod Validated
pub mod Guarded
pub mod Provisioning
pub mod Established
pub mod Establishes
pub mod Deletes
pub mod Again
pub mod Readiness
pub mod Completed
pub mod Consistent
use dpf_hcp_bridge_operator.Base.{
  String, Bool, true, false, not, Option, none, some, List, ◌==◌, is_some, if◌then◌else◌,
}
use dpf_hcp_bridge_operator.Types.{
  DpfHcpBridge, DpfHcpBridgePhase, NamespacedName, phase_pending, phase_failed, key_of,
  condition_true, bluefield_image_resolved, HostedCluster,
}
use dpf_hcp_bridge_operator.Platform.{
  Client, Meta, Action, Feature, Outcome, pure, ◌>>=◌, on_reply, on_option, done, fail, api,
  requeue_now, ◌and_then◌, get_bridge, update_bridge, get_hosted_cluster, getenv,
}
use dpf_hcp_bridge_operator.Report.{condition_now, set_condition, persist_status}
use dpf_hcp_bridge_operator.DpuCluster.{validate_dpu_cluster}
use dpf_hcp_bridge_operator.Secrets.{validate_secrets}
use dpf_hcp_bridge_operator.BlueField.{resolve_bluefield_image}
use dpf_hcp_bridge_operator.HostedCluster.SecretManager.{copy_secrets, generate_etcd_encryption_key}
use dpf_hcp_bridge_operator.HostedCluster.Manager.{create_or_update_hosted_cluster}
use dpf_hcp_bridge_operator.HostedCluster.NodePools.{create_node_pool_once}
use dpf_hcp_bridge_operator.HostedCluster.StatusSync.{
  ConditionMapping, sync_status_from_hosted_cluster,
}
use dpf_hcp_bridge_operator.Finalizer.{CleanupHandler}
use dpf_hcp_bridge_operator.Kubeconfig.Injector.{inject_kubeconfig}
use dpf_hcp_bridge_operator.Controller.Phase.{update_phase_from_conditions, compute_ready_condition}
use dpf_hcp_bridge_operator.Controller.Deletion.{finalizer_name, handle_deletion}

abbrev pub is_pending : DpfHcpBridgePhase → Bool
is_pending phase_pending = true
is_pending _ = false

abbrev pub is_failed_phase : DpfHcpBridgePhase → Bool
is_failed_phase phase_failed = true
is_failed_phase _ = false

module _ (m : Meta) (k : Client) where
  -- The branch for a disabled feature.
  unfoldable pub disable_image_validation : Feature
  disable_image_validation cr = do
    condition ←
        condition_now k cr bluefield_image_resolved condition_true "ValidationDisabled"
          "BlueField image validation is disabled (ENABLE_BLUEFIELD_VALIDATION=false)"
    (cr', changed) ← set_condition m k condition cr
    if changed then persist_status k cr' else pure (cr', done)

  -- The branch for an enabled feature: in other phases the resolution is skipped.
  unfoldable pub enabled_image_feature : Feature
  enabled_image_feature cr =
      if is_pending cr.status.phase
      then resolve_bluefield_image m k cr
      else if is_failed_phase cr.status.phase
      then resolve_bluefield_image m k cr
      else pure (cr, done)

  unfoldable pub image_feature : Feature
  image_feature cr = do
    enabled ← getenv k "ENABLE_BLUEFIELD_VALIDATION"
    if enabled == "true" then enabled_image_feature cr else disable_image_validation cr

  -- `r.updatePhaseFromConditions(&cr)` between two features.
  unfoldable pub phase_step : Feature
  phase_step cr = pure (update_phase_from_conditions m cr, done)

  unfoldable pub secrets_feature : Feature
  secrets_feature cr =
      if is_pending cr.status.phase
      then (copy_secrets m k and_then generate_etcd_encryption_key m k) cr
      else pure (cr, done)

  unfoldable pub creation_feature : Feature
  creation_feature cr =
      if is_pending cr.status.phase
      then (create_or_update_hosted_cluster m k and_then create_node_pool_once m k) cr
      else pure (cr, done)

  abbrev pub with_hosted_cluster_ref : DpfHcpBridge → DpfHcpBridge
  with_hosted_cluster_ref cr = record cr {
    status = record cr.status {
      hosted_cluster_ref = some (record {
        name = cr.meta.name;
        namespace = cr.meta.namespace;
        kind = "HostedCluster";
        api_version = "hypershift.openshift.io/v1beta1";
      });
    };
  }

  unfoldable pub set_ref_step : Feature
  set_ref_step cr =
      on_option cr.status.hosted_cluster_ref (λ ref. pure (cr, done))
        (do
          reply ← get_hosted_cluster k (key_of cr.meta)
          on_reply reply
              (λ hc.
                if m.is_controlled_by hc.meta cr.meta
                then pure (with_hosted_cluster_ref cr, done)
                else pure (cr, done))
              (λ e. pure (cr, done)))

  unfoldable pub injection_feature : Feature
  injection_feature cr =
      on_option cr.status.hosted_cluster_ref (λ ref. inject_kubeconfig m k cr) (pure (cr, done))

  -- The end: Ready, the phase, and the status in one update.
  unfoldable pub final_step : Feature
  final_step cr = do
    cr' ← compute_ready_condition m k cr
    persist_status k (update_phase_from_conditions m cr')

  unfoldable pub provisioning_features : Feature
  provisioning_features = secrets_feature and_then creation_feature

  unfoldable pub validation_features : Feature
  validation_features =
      validate_dpu_cluster m k and_then validate_secrets m k and_then image_feature

  unfoldable pub closing_features : List ConditionMapping → Feature
  closing_features order =
      set_ref_step
      and_then sync_status_from_hosted_cluster m k order
      and_then injection_feature
      and_then final_step

  unfoldable pub features : List ConditionMapping → Feature
  features order =
      validation_features
      and_then phase_step
      and_then provisioning_features
      and_then closing_features order

  unfoldable pub add_finalizer_step : Feature
  add_finalizer_step cr = do
    let cr' = record cr { meta = m.add_finalizer cr.meta finalizer_name }
    reply ← update_bridge k cr'
    on_reply reply (λ stored. pure (stored, requeue_now)) (λ e. pure (cr', fail (api e)))

  -- What follows the fetch.
  unfoldable pub reconcile_bridge : List CleanupHandler → List ConditionMapping → Feature
  reconcile_bridge handlers order cr =
      if is_some cr.meta.deletion_timestamp
      then handle_deletion m k handlers cr
      else if not (m.contains_finalizer cr.meta finalizer_name)
      then add_finalizer_step cr
      else features order cr

  unfoldable pub reconcile :
      List CleanupHandler → List ConditionMapping → NamespacedName → Action Outcome
  reconcile handlers order req = do
    reply ← get_bridge k req
    on_reply reply
        (λ fetched. do
          (_, o) ← reconcile_bridge handlers order (update_phase_from_conditions m fetched)
          pure o)
        (λ e. if e.is_not_found then pure done else pure (fail (api e)))
