-- ===== src/Tests/Witnesses.antt =====
-- The theorems, each applied at a concrete input.
use dpf_hcp_bridge_operator.Base.{
  String, true, false, none, some, [], ◌∷◌, ◌≡◌, refl, ◌↔◌, ◌⊎◌, is_some,
}
use dpf_hcp_bridge_operator.Types.{
  DpuCluster, key_of, condition_true, condition_false, ready_condition, hosted_cluster_available,
  kubeconfig_injected, phase_deleting, phase_failed, phase_ready, phase_provisioning, phase_pending,
  hosted_cluster_degraded,
}
use dpf_hcp_bridge_operator.Platform.{ok, Call, ApiError, err, seen, status_at, stops}
use dpf_hcp_bridge_operator.Platform.Only.{Made, Logged}
use dpf_hcp_bridge_operator.DpuCluster.{validate_dpu_cluster}
use dpf_hcp_bridge_operator.DpuCluster.Verdict
use dpf_hcp_bridge_operator.Secrets.{validate_secrets}
use dpf_hcp_bridge_operator.Secrets.Outcome
use dpf_hcp_bridge_operator.BlueField.{resolve_bluefield_image}
use dpf_hcp_bridge_operator.BlueField.Verdict.{Cleared, Resolved, resolve_bluefield_image_verdict}
use dpf_hcp_bridge_operator.Base.Result.{success}
use dpf_hcp_bridge_operator.HostedCluster.Addresses.{Preferred, detect_node_address-Preferred}
use dpf_hcp_bridge_operator.HostedCluster.Manager.{
  detect_node_address, create_or_update_hosted_cluster,
}
use dpf_hcp_bridge_operator.HostedCluster.SecretManager.{
  generate_etcd_encryption_key, etcd_key_name,
}
use dpf_hcp_bridge_operator.HostedCluster.NodePools.{create_node_pool_once}
use dpf_hcp_bridge_operator.HostedCluster.Once.{
  creates, hosted_cluster_created_once, node_pool_created_once, etcd_key_generated_once,
}
use dpf_hcp_bridge_operator.HostedCluster.StatusSync.{condition_mappings, mirror_conditions}
use dpf_hcp_bridge_operator.HostedCluster.StatusSync.Laws.{
  mirrored, source_of, mirror_conditions_exact,
}
use dpf_hcp_bridge_operator.HostedCluster.Cleanup.{cleanup_hosted_cluster}
use dpf_hcp_bridge_operator.HostedCluster.Cleanup.Gone.{HostedClusterGone}
use dpf_hcp_bridge_operator.HostedCluster.Cleanup.Order.{
  deletes_node_pool, node_pool_deleted_after_hosted_cluster,
}
use dpf_hcp_bridge_operator.Finalizer.{handle_finalizer_cleanup}
use dpf_hcp_bridge_operator.Finalizer.Laws.{AllClean, handle_finalizer_cleanup_exact}
use dpf_hcp_bridge_operator.Kubeconfig.Injector.{
  cluster_key, create_or_update_kubeconfig_secret, update_dpu_cluster_reference,
}
use dpf_hcp_bridge_operator.Kubeconfig.Written.{
  Copied, kubeconfig-Copied, dpu_cluster_references_secret,
}
use dpf_hcp_bridge_operator.Controller.Phase.{update_phase_from_conditions, compute_ready_condition}
use dpf_hcp_bridge_operator.Controller.PhaseLaws.{IsFailing, update_phase_exact}
use dpf_hcp_bridge_operator.Controller.Ready.{is_ready_kind, compute_ready_exact}
use dpf_hcp_bridge_operator.Report.Laws.{Frame}
use dpf_hcp_bridge_operator.Controller.Deletion.{registered_handlers, handle_deletion}
use dpf_hcp_bridge_operator.Controller.Deletion.Finish.{
  updates_bridge, AllGone, finalizer_removed_after_cleanup,
}
use dpf_hcp_bridge_operator.Controller.Reconcile.{reconcile}
use dpf_hcp_bridge_operator.Controller.Reconcile.Guarded.{Provisioned}
use dpf_hcp_bridge_operator.Controller.Reconcile.Provisioning.{
  Admitted, reconcile_creates_only_validated,
}
use dpf_hcp_bridge_operator.Controller.Watches.{dpu_cluster_to_requests}
use dpf_hcp_bridge_operator.Controller.Watches.Laws.{
  Asks, Some, ReferencesCluster, dpu_cluster_to_requests_exact,
}
use dpf_hcp_bridge_operator.Tests.Fixtures.{
  noded, worker, injectable, named, helpers, helpers_laws, bridge, fresh, fresh_echo, ending,
  request, hosted,
}
use dpf_hcp_bridge_operator.Tests.Runs.{
  copy_run-none, reference_run-none, first_run-provisions, hosted_cluster_run-creates,
  node_pool_run-creates, etcd_run-creates, ending_run-deletes, finished_run-updates, dpu_run-on,
  secrets_run-on, image_run-on,
}

reconcile_creates_only_validated_example :
    Provisioned []
    ⊎ Admitted helpers request (reconcile helpers fresh (registered_handlers fresh) [] request []).1
reconcile_creates_only_validated_example =
    reconcile_creates_only_validated helpers_laws fresh_echo [] request [] first_run-provisions

finalizer_removed_after_cleanup_example :
    Made updates_bridge []
    ⊎ AllGone bridge (handle_deletion helpers fresh (registered_handlers fresh) bridge []).1
finalizer_removed_after_cleanup_example =
    finalizer_removed_after_cleanup helpers fresh fresh_echo bridge [] finished_run-updates

validate_dpu_cluster-Verdict_example :
    Verdict.Verdict helpers bridge
      (validate_dpu_cluster helpers fresh bridge []).0.0
      (validate_dpu_cluster helpers fresh bridge []).1
validate_dpu_cluster-Verdict_example =
    Verdict.validate_dpu_cluster-Verdict helpers_laws fresh_echo bridge [] dpu_run-on

validate_secrets-Verdict_example :
    Outcome.Verdict helpers bridge
      (validate_secrets helpers fresh bridge []).0.0
      (validate_secrets helpers fresh bridge []).1
validate_secrets-Verdict_example =
    Outcome.validate_secrets-Verdict helpers_laws fresh_echo bridge [] secrets_run-on

update_phase_exact_example :
    let phase = (update_phase_from_conditions helpers bridge).status.phase in
    let cs = bridge.status.conditions in
    let alive = bridge.meta.deletion_timestamp ≡ none in
    let is_ready = status_at helpers cs ready_condition ≡ some condition_true in
    let has_ref = is_some bridge.status.hosted_cluster_ref ≡ true in
    ((phase ≡ phase_deleting) ↔ ¬ alive)
    × ((phase ≡ phase_failed) ↔ (alive × IsFailing helpers cs))
    × ((phase ≡ phase_ready) ↔ (alive × (¬ IsFailing helpers cs) × is_ready))
    × ((phase ≡ phase_provisioning) ↔ (alive × (¬ IsFailing helpers cs) × (¬ is_ready) × has_ref))
    × ((phase ≡ phase_pending) ↔ (alive × (¬ IsFailing helpers cs) × (¬ is_ready) × (¬ has_ref)))
update_phase_exact_example = update_phase_exact helpers bridge

compute_ready_exact_example :
    let cr' = (compute_ready_condition helpers fresh bridge []).0 in
    let met =
      λ (kind : String). status_at helpers bridge.status.conditions kind ≡ some condition_true in
    ((status_at helpers cr'.status.conditions ready_condition ≡ some condition_true)
      ↔ (met hosted_cluster_available × met kubeconfig_injected))
    × ((¬ (met hosted_cluster_available × met kubeconfig_injected))
        → status_at helpers cr'.status.conditions ready_condition ≡ some condition_false)
    × Frame helpers is_ready_kind bridge cr'
compute_ready_exact_example = compute_ready_exact fresh helpers_laws bridge []

mirror_conditions_exact_example :
    seen helpers
      (mirror_conditions helpers fresh hosted condition_mappings bridge []).0.status.conditions
      hosted_cluster_degraded
    ≡ mirrored fresh helpers_laws hosted bridge
        (source_of condition_mappings hosted_cluster_degraded)
        (seen helpers bridge.status.conditions hosted_cluster_degraded)
mirror_conditions_exact_example =
    mirror_conditions_exact fresh helpers_laws hosted condition_mappings bridge []
      hosted_cluster_degraded (refl, (refl, (refl, (refl, (refl, (refl, (refl, tt)))))))

resolve_bluefield_image_verdict_example :
    Cleared helpers (resolve_bluefield_image helpers fresh bridge []).0.0
    ⊎ Resolved helpers bridge
        (resolve_bluefield_image helpers fresh bridge []).0.0
        (resolve_bluefield_image helpers fresh bridge []).1
resolve_bluefield_image_verdict_example =
    resolve_bluefield_image_verdict helpers_laws fresh_echo bridge [] image_run-on

handle_finalizer_cleanup_exact_example :
    (stops (handle_finalizer_cleanup (registered_handlers ending) bridge []).0 ≡ false)
    ↔ AllClean (registered_handlers ending) bridge []
handle_finalizer_cleanup_exact_example =
    handle_finalizer_cleanup_exact (registered_handlers ending) bridge []

node_pool_deleted_after_hosted_cluster_example :
    Made deletes_node_pool []
    ⊎ HostedClusterGone (key_of bridge.meta) (cleanup_hosted_cluster ending bridge []).1
node_pool_deleted_after_hosted_cluster_example =
    node_pool_deleted_after_hosted_cluster ending bridge [] ending_run-deletes

hosted_cluster_created_once_example :
    Made creates []
    ⊎ ((e : ApiError) × (e.is_not_found ≡ true)
        × Logged
            (Call.get_hosted_cluster (key_of bridge.meta) (err e))
            (create_or_update_hosted_cluster helpers fresh bridge []).1)
hosted_cluster_created_once_example =
    hosted_cluster_created_once helpers fresh bridge [] hosted_cluster_run-creates

node_pool_created_once_example :
    Made creates []
    ⊎ ((e : ApiError) × (e.is_not_found ≡ true)
        × Logged
            (Call.get_node_pool (key_of bridge.meta) (err e))
            (create_node_pool_once helpers fresh bridge []).1)
node_pool_created_once_example =
    node_pool_created_once helpers fresh bridge [] node_pool_run-creates

etcd_key_generated_once_example :
    Made creates []
    ⊎ ((e : ApiError) × (e.is_not_found ≡ true)
        × Logged
            (Call.get_secret
              (record { namespace = bridge.meta.namespace; name = etcd_key_name bridge })
              (err e))
            (generate_etcd_encryption_key helpers fresh bridge []).1)
etcd_key_generated_once_example = etcd_key_generated_once helpers fresh bridge [] etcd_run-creates

dpu_cluster_to_requests_exact_example :
    Asks request (dpu_cluster_to_requests fresh (named "dpu") []).0
    ↔ Some (ReferencesCluster (named "dpu")) request (bridge ∷ [])
dpu_cluster_to_requests_exact_example =
    dpu_cluster_to_requests_exact fresh (named "dpu") [] (bridge ∷ []) request refl

kubeconfig-Copied_example :
    Copied bridge "s" (create_or_update_kubeconfig_secret injectable bridge "s" []).1
kubeconfig-Copied_example = kubeconfig-Copied helpers injectable bridge "s" [] copy_run-none

dpu_cluster_references_secret_example :
    (d : DpuCluster) × Logged
      (Call.get_dpu_cluster (cluster_key bridge) (ok d))
      (update_dpu_cluster_reference injectable bridge "s" []).1
    × Logged
        (Call.update_dpu_cluster (record d { kubeconfig = "s" }) (ok tt))
        (update_dpu_cluster_reference injectable bridge "s" []).1
dpu_cluster_references_secret_example =
    dpu_cluster_references_secret injectable bridge "s" [] reference_run-none

detect_node_address-Preferred_example :
    ((detect_node_address noded []).0 ≡ success "192.0.2.7")
    ↔ Preferred "192.0.2.7" worker.addresses
detect_node_address-Preferred_example =
    detect_node_address-Preferred noded [] worker [] "192.0.2.7" refl
