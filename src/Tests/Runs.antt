-- ===== src/Tests/Runs.antt =====
-- Runs of the program against the fixtures.
use dpf_hcp_bridge_operator.Base.{false, [], ◌≡◌, refl, none}
use dpf_hcp_bridge_operator.Base.Result.{on_result}
use dpf_hcp_bridge_operator.Types.{should_expose_through_load_balancer}
use dpf_hcp_bridge_operator.Platform.{◌>>=◌, call, on_reply, on_option, pure, ◌and_then◌, stops}
use dpf_hcp_bridge_operator.Platform.Only.{Made}
use dpf_hcp_bridge_operator.Tests.Traces.{has_made-Made}
use dpf_hcp_bridge_operator.Report.{
  set_condition, persist_status, emit_if, condition_now, report_with, with_outcome,
}
use dpf_hcp_bridge_operator.DpuCluster.{
  handle_cluster_type_invalid, handle_cluster_type_valid, validate_cluster_type,
  handle_dpu_cluster_in_use, handle_dpu_cluster_available, find_conflict,
  validate_dpu_cluster_exclusivity, handle_dpu_cluster_missing, handle_dpu_cluster_access_denied,
  handle_dpu_cluster_found, validate_dpu_cluster,
}
use dpf_hcp_bridge_operator.Secrets.{
  handle_ssh_key_secret_missing, handle_ssh_key_secret_invalid, handle_pull_secret_missing,
  handle_pull_secret_invalid, handle_secrets_access_denied, handle_secrets_valid,
  handle_fetch_error, validate_pull_secret, validate_secrets,
}
use dpf_hcp_bridge_operator.HostedCluster.SecretManager.{
  pull_secret_name, ssh_key_name, etcd_key_name, create_owned_secret, copy_pull_secret,
  copy_ssh_key, copy_secrets, generate_new_key, generate_etcd_encryption_key,
}
use dpf_hcp_bridge_operator.HostedCluster.Manager.{
  get_node_selector, build_hosted_cluster, address_of_type, first_address, detect_node_address,
  create_with_address, create_new_hosted_cluster, create_or_update_hosted_cluster,
}
use dpf_hcp_bridge_operator.HostedCluster.NodePools.{
  build_node_pool, create_new_node_pool, create_node_pool_once,
}
use dpf_hcp_bridge_operator.HostedCluster.StatusSync.{
  mirror_condition, mirror_conditions, sync_status_from_hosted_cluster,
}
use dpf_hcp_bridge_operator.Controller.Phase.{
  is_failed, any_failed, is_met, update_phase_from_conditions, set_ready, compute_ready_condition,
}
use dpf_hcp_bridge_operator.Controller.Reconcile.{
  disable_image_validation, enabled_image_feature, image_feature, phase_step, secrets_feature,
  creation_feature, set_ref_step, injection_feature, final_step, provisioning_features,
  validation_features, closing_features, features, add_finalizer_step, reconcile_bridge, reconcile,
}
use dpf_hcp_bridge_operator.Finalizer.{register_handler, handle_finalizer_cleanup}
use dpf_hcp_bridge_operator.HostedCluster.Cleanup.{
  delete_resource, delete_secret_by_name, delete_all, delete_secrets, cleanup_secrets,
  cleanup_node_pool, cleanup_hosted_cluster,
}
use dpf_hcp_bridge_operator.Kubeconfig.Cleanup.{delete_found, cleanup_listed, cleanup_kubeconfig}
use dpf_hcp_bridge_operator.Controller.Deletion.{
  registered_handlers, remove_finalizer_step, run_cleanup, handle_deletion,
}
use dpf_hcp_bridge_operator.HostedCluster.Once.{creates}
use dpf_hcp_bridge_operator.HostedCluster.Cleanup.Order.{deletes_node_pool, deletes_secret}
use dpf_hcp_bridge_operator.Controller.Deletion.Finish.{updates_bridge}
use dpf_hcp_bridge_operator.Controller.Reconcile.Quiet.{provisions}
use dpf_hcp_bridge_operator.BlueField.Version.{
  strip_suffixes, last_part, version_of_tag, extract_ocp_version,
}
use dpf_hcp_bridge_operator.BlueField.{
  fetch_config_map, resolve_version, resolve_bluefield_image, update_status_on_success,
  lookup_bluefield_image, validate_bluefield_image_url,
}
use dpf_hcp_bridge_operator.Base.Text.{append, split, trim_suffix, contains}
use dpf_hcp_bridge_operator.Kubeconfig.Injector.{
  create_or_update_kubeconfig_secret, update_dpu_cluster_reference,
}
use dpf_hcp_bridge_operator.Tests.Fixtures.{
  injectable, helpers, bridge, fresh, copied, ending, emptied, request,
}

-- A first run creates the HostedCluster and the NodePool, and completes.
first_run :
    Made provisions (reconcile helpers fresh (registered_handlers fresh) [] request []).1
    × (stops (reconcile helpers fresh (registered_handlers fresh) [] request []).0 ≡ false)
unfolding append ◌>>=◌ call on_reply on_option pure ◌and_then◌ on_result
    should_expose_through_load_balancer registered_handlers set_condition persist_status emit_if
    condition_now report_with with_outcome handle_cluster_type_invalid handle_cluster_type_valid
    validate_cluster_type handle_dpu_cluster_in_use handle_dpu_cluster_available find_conflict
    validate_dpu_cluster_exclusivity handle_dpu_cluster_missing handle_dpu_cluster_access_denied
    handle_dpu_cluster_found validate_dpu_cluster handle_ssh_key_secret_missing
    handle_ssh_key_secret_invalid handle_pull_secret_missing handle_pull_secret_invalid
    handle_secrets_access_denied handle_secrets_valid handle_fetch_error validate_pull_secret
    validate_secrets pull_secret_name ssh_key_name etcd_key_name create_owned_secret
    copy_pull_secret copy_ssh_key copy_secrets generate_new_key generate_etcd_encryption_key
    get_node_selector build_hosted_cluster address_of_type first_address detect_node_address
    create_with_address create_new_hosted_cluster create_or_update_hosted_cluster build_node_pool
    create_new_node_pool create_node_pool_once mirror_condition mirror_conditions
    sync_status_from_hosted_cluster is_failed any_failed is_met update_phase_from_conditions
    set_ready compute_ready_condition disable_image_validation enabled_image_feature image_feature
    phase_step secrets_feature creation_feature set_ref_step injection_feature final_step
    provisioning_features validation_features closing_features features add_finalizer_step
    reconcile_bridge reconcile resolve_bluefield_image extract_ocp_version last_part split
    version_of_tag strip_suffixes trim_suffix resolve_version fetch_config_map
    lookup_bluefield_image validate_bluefield_image_url contains update_status_on_success
first_run = (
  has_made-Made provisions (reconcile helpers fresh (registered_handlers fresh) [] request []).1
      refl,
  refl,
)

pub first_run-provisions :
    Made provisions (reconcile helpers fresh (registered_handlers fresh) [] request []).1
first_run-provisions = first_run.0

pub first_run_completes :
    stops (reconcile helpers fresh (registered_handlers fresh) [] request []).0 ≡ false
first_run_completes = first_run.1

-- The HostedCluster of the bridge is created.
pub hosted_cluster_run-creates :
    Made creates (create_or_update_hosted_cluster helpers fresh bridge []).1
unfolding append ◌>>=◌ call on_reply on_option pure on_result should_expose_through_load_balancer
    create_or_update_hosted_cluster create_new_hosted_cluster create_with_address
hosted_cluster_run-creates =
    has_made-Made creates (create_or_update_hosted_cluster helpers fresh bridge []).1 refl

-- Its NodePool is created.
pub node_pool_run-creates : Made creates (create_node_pool_once helpers fresh bridge []).1
unfolding append ◌>>=◌ call on_reply on_option pure create_node_pool_once create_new_node_pool
    build_node_pool
node_pool_run-creates = has_made-Made creates (create_node_pool_once helpers fresh bridge []).1 refl

-- Its etcd encryption key is created.
pub etcd_run-creates : Made creates (generate_etcd_encryption_key helpers fresh bridge []).1
unfolding append ◌>>=◌ call on_reply on_option pure generate_etcd_encryption_key generate_new_key
    create_owned_secret etcd_key_name
etcd_run-creates =
    has_made-Made creates (generate_etcd_encryption_key helpers fresh bridge []).1 refl

-- The NodePool is deleted once the HostedCluster is gone.
pub ending_run-deletes : Made deletes_node_pool (cleanup_hosted_cluster ending bridge []).1
unfolding append ◌>>=◌ call on_reply on_option pure on_result register_handler
    handle_finalizer_cleanup delete_resource delete_secret_by_name delete_all delete_secrets
    cleanup_secrets cleanup_node_pool cleanup_hosted_cluster delete_found cleanup_listed
    cleanup_kubeconfig registered_handlers remove_finalizer_step run_cleanup handle_deletion
ending_run-deletes =
    has_made-Made deletes_node_pool (cleanup_hosted_cluster ending bridge []).1 refl

-- A secret is deleted once both are gone.
pub emptied_run-deletes : Made deletes_secret (cleanup_hosted_cluster emptied bridge []).1
unfolding append ◌>>=◌ call on_reply on_option pure on_result register_handler
    handle_finalizer_cleanup delete_resource delete_secret_by_name delete_all delete_secrets
    cleanup_secrets cleanup_node_pool cleanup_hosted_cluster delete_found cleanup_listed
    cleanup_kubeconfig registered_handlers remove_finalizer_step run_cleanup handle_deletion
emptied_run-deletes = has_made-Made deletes_secret (cleanup_hosted_cluster emptied bridge []).1 refl

-- The finalizer is removed once all is gone.
pub finished_run-updates :
    Made updates_bridge (handle_deletion helpers fresh (registered_handlers fresh) bridge []).1
unfolding append ◌>>=◌ call on_reply on_option pure on_result register_handler
    handle_finalizer_cleanup delete_resource delete_secret_by_name delete_all delete_secrets
    cleanup_secrets cleanup_node_pool cleanup_hosted_cluster delete_found cleanup_listed
    cleanup_kubeconfig registered_handlers remove_finalizer_step run_cleanup handle_deletion
finished_run-updates =
    has_made-Made updates_bridge
      (handle_deletion helpers fresh (registered_handlers fresh) bridge []).1 refl

-- With nothing left the cleanup of the HostedCluster reports no error.
pub cleaned_run-none : (cleanup_hosted_cluster fresh bridge []).0 ≡ none
unfolding append ◌>>=◌ call on_reply on_option pure on_result register_handler
    handle_finalizer_cleanup delete_resource delete_secret_by_name delete_all delete_secrets
    cleanup_secrets cleanup_node_pool cleanup_hosted_cluster delete_found cleanup_listed
    cleanup_kubeconfig registered_handlers remove_finalizer_step run_cleanup handle_deletion
cleaned_run-none = refl

-- A validation of the DPUCluster goes on.
pub dpu_run-on : stops (validate_dpu_cluster helpers fresh bridge []).0.1 ≡ false
unfolding append ◌>>=◌ call on_reply on_option pure ◌and_then◌ set_condition persist_status emit_if
    condition_now report_with with_outcome handle_cluster_type_invalid handle_cluster_type_valid
    validate_cluster_type handle_dpu_cluster_in_use handle_dpu_cluster_available find_conflict
    validate_dpu_cluster_exclusivity handle_dpu_cluster_missing handle_dpu_cluster_access_denied
    handle_dpu_cluster_found validate_dpu_cluster
dpu_run-on = refl

-- A validation of the secrets goes on.
pub secrets_run-on : stops (validate_secrets helpers fresh bridge []).0.1 ≡ false
unfolding append ◌>>=◌ call on_reply on_option pure set_condition persist_status emit_if
    condition_now report_with with_outcome handle_ssh_key_secret_missing
    handle_ssh_key_secret_invalid handle_pull_secret_missing handle_pull_secret_invalid
    handle_secrets_access_denied handle_secrets_valid handle_fetch_error validate_pull_secret
    validate_secrets
secrets_run-on = refl

-- A resolution of the image goes on.
pub image_run-on : stops (resolve_bluefield_image helpers fresh bridge []).0.1 ≡ false
unfolding append ◌>>=◌ call on_reply on_option pure on_result resolve_bluefield_image
    extract_ocp_version last_part version_of_tag split trim_suffix strip_suffixes resolve_version
    fetch_config_map lookup_bluefield_image validate_bluefield_image_url update_status_on_success
    contains set_condition persist_status emit_if condition_now report_with with_outcome
image_run-on = refl

-- The kubeconfig is copied.
pub copy_run-none : (create_or_update_kubeconfig_secret injectable bridge "s" []).0 ≡ none
unfolding create_or_update_kubeconfig_secret ◌>>=◌ call on_reply on_option pure
copy_run-none = refl

-- The DPUCluster is updated.
pub reference_run-none : (update_dpu_cluster_reference injectable bridge "s" []).0 ≡ none
unfolding update_dpu_cluster_reference ◌>>=◌ call on_reply pure
reference_run-none = refl

-- The cleanup of the one copy reports no error.
pub copied_run-none : (cleanup_kubeconfig copied bridge []).0 ≡ none
unfolding cleanup_kubeconfig cleanup_listed delete_found on_result ◌>>=◌ call on_reply pure
copied_run-none = refl
