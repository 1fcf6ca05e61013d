-- ===== src/Kubeconfig/Injector.antt =====
-- internal/controller/kubeconfiginjection/injector.go
pub mod Names
pub mod Copies
unfoldable pub use Names.*
unfoldable pub use Copies.*
use dpf_hcp_bridge_operator.Base.{
  ℕ, String, Bool, true, false, not, ◌&&◌, Option, none, some, List, [], ◌∷◌, lookup, nat_eq, ◌==◌,
  if◌then◌else◌,
}
use dpf_hcp_bridge_operator.Base.Text.{sprintf, append}
use dpf_hcp_bridge_operator.Base.Result.{Result, success, failure, on_result}
use dpf_hcp_bridge_operator.Types.{
  reason_kubeconfig_injected, reason_kubeconfig_pending, reason_kubeconfig_injection_failed,
  DpfHcpBridge, NamespacedName, ConditionStatus, condition_true, condition_false,
  kubeconfig_injected, opaque,
}
use dpf_hcp_bridge_operator.Platform.{
  Client, Meta, Action, Feature, Failure, EventType, normal, warning, wrapped, errorf, api,
  error_text, pure, ◌>>=◌, ◌>>◌, on_reply, on_option, done, fail, event, get_secret, create_secret,
  update_secret, get_dpu_cluster, update_dpu_cluster, update_bridge_status,
}
use dpf_hcp_bridge_operator.Report.{set_condition, emit_if}
use dpf_hcp_bridge_operator.HostedCluster.SecretManager.{new_meta}

module _ (m : Meta) (k : Client) where
  -- `setCondition`
  unfoldable pub set_injected :
      ConditionStatus → String → String → DpfHcpBridge → Action (DpfHcpBridge × Option Failure)
  set_injected status reason message bridge = do
    (bridge', changed) ←
        set_condition m k
          (record {
            kind = kubeconfig_injected;
            status = status;
            reason = reason;
            message = message;
            last_transition_time = 0;
            observed_generation = bridge.meta.generation;
          })
          bridge
    emit_if changed (warning_if_false status) reason message
    reply ← update_bridge_status k bridge'
    on_reply reply (λ stored. pure (stored, none))
        (λ e. pure (
          bridge',
          some (
              if e.is_conflict
              then api e
              else wrapped "failed to update KubeConfigInjected condition" (api e)),
        ))

  -- The error branches: the condition is set, and the first error returned.
  unfoldable pub injection_failed : String → Failure → Feature
  injection_failed text x bridge = do
    (bridge', _) ←
        set_injected condition_false reason_kubeconfig_injection_failed
          (sprintf (text ∷ ": " ∷ error_text x ∷ [])) bridge
    pure (bridge', fail x)

  -- The ends that return the error of `setCondition`, if it has one.
  unfoldable pub finish_with : ConditionStatus → String → String → Feature
  finish_with status reason message bridge = do
    (bridge', failed) ← set_injected status reason message bridge
    pure (bridge', on_option failed fail done)

  unfoldable pub injected : Feature
  injected bridge =
      finish_with condition_true reason_kubeconfig_injected
        (sprintf (
          "Kubeconfig secret successfully created in namespace "
          ∷ bridge.spec.dpu_cluster_ref.namespace ∷ " and DPUCluster CR updated" ∷ []))
        bridge

module _ (m : Meta) (k : Client) where
  -- Step 7
  unfoldable pub complete_injection : String → Feature
  complete_injection secret_name bridge = injected m k (with_secret_ref bridge secret_name)

  -- Step 6
  unfoldable pub update_reference_step : String → Bool → Feature
  update_reference_step secret_name dpu_cluster_updated bridge =
      if dpu_cluster_updated then complete_injection secret_name bridge else (do
        failed ← update_dpu_cluster_reference k bridge secret_name
        on_option failed
            (λ x. injection_failed m k "Failed to update DPUCluster spec.kubeconfig" x bridge)
            (do
              event normal "DPUClusterUpdated" (
                  sprintf (
                    "DPUCluster " ∷ bridge.spec.dpu_cluster_ref.namespace ∷ "/"
                    ∷ bridge.spec.dpu_cluster_ref.name ∷ " updated with kubeconfig reference" ∷ []))
              complete_injection secret_name bridge))

  -- Step 5
  unfoldable pub write_secret_step : String → Bool → Feature
  write_secret_step secret_name dpu_cluster_updated bridge = do
    failed ← create_or_update_kubeconfig_secret k bridge secret_name
    on_option failed
        (λ x.
          injection_failed m k
            (append "Failed to create kubeconfig secret in namespace "
              bridge.spec.dpu_cluster_ref.namespace)
            x bridge)
        (do
          event normal "KubeConfigInjected" (
              sprintf (
                "Kubeconfig secret " ∷ secret_name ∷ " created in namespace "
                ∷ bridge.spec.dpu_cluster_ref.namespace ∷ []))
          update_reference_step secret_name dpu_cluster_updated bridge)

  -- Step 4
  unfoldable pub inject_available : InjectionState → String → Feature
  inject_available s secret_name bridge = do
    (bridge', scenario) ← handle_idempotency_scenarios k bridge secret_name s
    on_result scenario
        (λ needs_injection.
          if needs_injection
          then write_secret_step secret_name s.dpu_cluster_updated bridge'
          else injected m k bridge')
        (λ x. injection_failed m k "Failed to handle idempotency scenarios" x bridge')

  unfoldable pub inject_kubeconfig : Feature
  inject_kubeconfig bridge =
      on_option bridge.status.hosted_cluster_ref
        (λ ref. do
          state ← check_injection_state k bridge
          on_result state
              (λ s. do
                detected ← detect_hc_kubeconfig_availability k bridge
                on_result detected
                    (λ available.
                      on_option available (λ secret_name. inject_available s secret_name bridge)
                        (finish_with m k condition_false reason_kubeconfig_pending
                          (append
                            "Waiting for Hypershift to create kubeconfig secret for HostedCluster "
                            bridge.meta.name)
                          bridge))
                    (λ x.
                      injection_failed m k "Failed to detect HC kubeconfig availability" x bridge))
              (λ x. injection_failed m k "Failed to check injection state" x bridge))
        (pure (bridge, done))
