-- ===== src/Kubeconfig/Injector/Copies.antt =====
-- The checks of the injection, and what it writes: the secret beside the DPUCluster, and its reference.
use dpf_hcp_bridge_operator.Base.{
  ℕ, String, Bool, true, false, not, ◌&&◌, Option, none, some, List, [], ◌∷◌, lookup, ◌==◌,
  if◌then◌else◌,
}
use dpf_hcp_bridge_operator.Base.Text.{sprintf}
use dpf_hcp_bridge_operator.Base.Result.{Result, success, failure, on_result}
use dpf_hcp_bridge_operator.Types.{DpfHcpBridge, opaque}
use dpf_hcp_bridge_operator.Platform.{
  Client, Action, Failure, normal, wrapped, errorf, api, pure, ◌>>=◌, ◌>>◌, on_reply, on_option,
  event, get_secret, create_secret, update_secret, get_dpu_cluster, update_dpu_cluster,
}
use dpf_hcp_bridge_operator.HostedCluster.SecretManager.{new_meta}
use dpf_hcp_bridge_operator.Kubeconfig.Injector.Names.{
  kubeconfig_secret_name, source_key, dest_key, cluster_key, bytes_equal, label_owned_by,
  label_namespace, with_secret_ref,
}

-- Whether the copy exists, and whether the DPUCluster names it.
pub record InjectionState : Type 0 where
  pub secret_exists : Bool
  pub dpu_cluster_updated : Bool

module _ (k : Client) where
  unfoldable pub check_dpu_cluster : DpfHcpBridge → Bool → Action (Result Failure InjectionState)
  check_dpu_cluster bridge secret_exists = do
    reply ← get_dpu_cluster k (cluster_key bridge)
    pure (
        on_reply reply
          (λ d. success (record {
            secret_exists = secret_exists;
            dpu_cluster_updated = d.kubeconfig == kubeconfig_secret_name bridge;
          }))
          (λ e. failure (
            if e.is_not_found
            then errorf (
                sprintf (
                  "DPUCluster " ∷ bridge.spec.dpu_cluster_ref.namespace ∷ "/"
                  ∷ bridge.spec.dpu_cluster_ref.name ∷ " not found" ∷ []))
            else wrapped "failed to get DPUCluster" (api e))))

  unfoldable pub check_injection_state : DpfHcpBridge → Action (Result Failure InjectionState)
  check_injection_state bridge = do
    reply ← get_secret k (dest_key bridge (kubeconfig_secret_name bridge))
    on_reply reply (λ s. check_dpu_cluster bridge true)
        (λ e.
          if e.is_not_found
          then check_dpu_cluster bridge false
          else pure (failure (wrapped "failed to check secret existence" (api e))))

  -- The name of the secret, if it is available.
  unfoldable pub detect_hc_kubeconfig_availability :
      DpfHcpBridge → Action (Result Failure (Option String))
  detect_hc_kubeconfig_availability bridge = do
    reply ← get_secret k (source_key bridge (kubeconfig_secret_name bridge))
    pure (
        on_reply reply (λ s. success (some (kubeconfig_secret_name bridge)))
          (λ e.
            if e.is_not_found
            then success none
            else failure (wrapped "failed to check HC kubeconfig secret" (api e))))

  unfoldable pub check_drift : DpfHcpBridge → String → Action (Result Failure Bool)
  check_drift bridge secret_name = do
    source ← get_secret k (source_key bridge secret_name)
    on_reply source
        (λ source_secret. do
          dest ← get_secret k (dest_key bridge secret_name)
          pure (
              on_reply dest
                (λ dest_secret.
                  on_option (lookup "kubeconfig" source_secret.content)
                    (λ source_data.
                      on_option (lookup "kubeconfig" dest_secret.content)
                        (λ dest_data. success (not (bytes_equal source_data dest_data)))
                        (failure (errorf "destination secret missing 'kubeconfig' key")))
                    (failure (errorf "source secret missing 'kubeconfig' key")))
                (λ e. failure (wrapped "failed to get destination secret" (api e)))))
        (λ e. pure (failure (wrapped "failed to get source secret" (api e))))

  unfoldable pub update_dpu_cluster_reference : DpfHcpBridge → String → Action (Option Failure)
  update_dpu_cluster_reference bridge secret_name = do
    reply ← get_dpu_cluster k (cluster_key bridge)
    on_reply reply
        (λ d. do
          updated ← update_dpu_cluster k (record d { kubeconfig = secret_name })
          pure (
              on_reply updated (λ u. none)
                (λ e. some (
                  if e.is_conflict
                  then wrapped "update conflict on DPUCluster, will retry" (api e)
                  else wrapped "failed to update DPUCluster spec.kubeconfig" (api e)))))
        (λ e. pure (some (wrapped "failed to get DPUCluster" (api e))))

  -- The branch for a secret that exists already.
  unfoldable pub update_kubeconfig_secret : DpfHcpBridge → String → List ℕ → Action (Option Failure)
  update_kubeconfig_secret bridge secret_name kubeconfig_data = do
    reply ← get_secret k (dest_key bridge secret_name)
    on_reply reply
        (λ existing. do
          updated ← update_secret k (record existing {
            content = ("kubeconfig", kubeconfig_data) ∷ [];
            meta = record existing.meta {
              labels =
                  (label_owned_by, bridge.meta.name)
                  ∷ (label_namespace, bridge.meta.namespace)
                  ∷ [];
            };
          })
          pure (
              on_reply updated (λ u. none)
                (λ e. some (wrapped "failed to update kubeconfig secret" (api e)))))
        (λ e. pure (some (wrapped "failed to get existing secret for update" (api e))))

  unfoldable pub create_or_update_kubeconfig_secret :
      DpfHcpBridge → String → Action (Option Failure)
  create_or_update_kubeconfig_secret bridge source_secret_name = do
    source ← get_secret k (source_key bridge source_secret_name)
    on_reply source
        (λ source_secret.
          on_option (lookup "kubeconfig" source_secret.content)
            (λ kubeconfig_data. do
              created ← create_secret k (record {
                meta = record (new_meta source_secret_name bridge.spec.dpu_cluster_ref.namespace) {
                  labels =
                      (label_owned_by, bridge.meta.name)
                      ∷ (label_namespace, bridge.meta.namespace)
                      ∷ [];
                };
                kind = opaque;
                content = ("kubeconfig", kubeconfig_data) ∷ [];
              })
              on_reply created (λ u. pure none)
                  (λ e.
                    if e.is_already_exists
                    then update_kubeconfig_secret bridge source_secret_name kubeconfig_data
                    else pure (some (wrapped "failed to create kubeconfig secret" (api e)))))
            (pure (some (errorf "source secret missing 'kubeconfig' key"))))
        (λ e. pure (some (wrapped "failed to read source kubeconfig secret" (api e))))

  -- Whether the secret has to be written. Scenario B completes the bridge itself.
  unfoldable pub handle_idempotency_scenarios :
      DpfHcpBridge → String → InjectionState → Action (DpfHcpBridge × Result Failure Bool)
  handle_idempotency_scenarios bridge secret_name s =
      if s.secret_exists && s.dpu_cluster_updated
      then (do
        drift ← check_drift bridge secret_name
        on_result drift
            (λ has_drift.
              if has_drift
              then (do
                event normal "DriftCorrected"
                    "Kubeconfig secret content drift detected and corrected"
                pure (bridge, success true))
              else pure (bridge, success false))
            (λ x. pure (bridge, failure (wrapped "failed to check drift" x))))
      else if s.secret_exists && not s.dpu_cluster_updated
      then (do
        failed ← update_dpu_cluster_reference bridge secret_name
        on_option failed
            (λ x. pure (bridge, failure (wrapped "failed to update DPUCluster reference" x)))
            (pure (with_secret_ref bridge secret_name, success false)))
      else pure (bridge, success true)
