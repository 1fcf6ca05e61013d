-- ===== src/Kubeconfig/Cleanup.antt =====
-- internal/controller/kubeconfiginjection/cleanup_handler.go
pub mod Removed
use dpf_hcp_bridge_operator.Base.{
  ℕ, suc, String, Option, none, some, List, [], ◌∷◌, Assoc, if◌then◌else◌,
}
use dpf_hcp_bridge_operator.Base.Text.{sprintf, decimal}
use dpf_hcp_bridge_operator.Base.Result.{Result, success, failure, on_result}
use dpf_hcp_bridge_operator.Types.{DpfHcpBridge, Secret, key_of}
use dpf_hcp_bridge_operator.Platform.{
  Client, Action, Failure, wrapped, api, pure, ◌>>=◌, ◌>>◌, on_reply, event, normal, list_secrets,
  delete_secret,
}
use dpf_hcp_bridge_operator.Finalizer.{CleanupHandler}
use dpf_hcp_bridge_operator.Kubeconfig.Injector.{label_owned_by, label_namespace}

abbrev pub owner_labels : DpfHcpBridge → Assoc String
owner_labels cr = (label_owned_by, cr.meta.name) ∷ (label_namespace, cr.meta.namespace) ∷ []

module _ (k : Client) where
  -- The loop, with the number of secrets deleted so far.
  unfoldable pub delete_found : List Secret → ℕ → Action (Result Failure ℕ)
  delete_found [] deleted_count = pure (success deleted_count)
  delete_found (s ∷ rest) deleted_count = do
    reply ← delete_secret k (key_of s.meta)
    on_reply reply (λ u. delete_found rest (suc deleted_count))
        (λ e.
          if e.is_not_found
          then delete_found rest deleted_count
          else pure (
              failure (
                wrapped
                  (sprintf (
                    "failed to delete kubeconfig secret " ∷ s.meta.namespace ∷ "/" ∷ s.meta.name
                    ∷ []))
                  (api e))))

  unfoldable pub cleanup_listed : List Secret → Action (Option Failure)
  cleanup_listed [] = pure none
  cleanup_listed (s ∷ rest) = do
    deleted ← delete_found (s ∷ rest) 0
    on_result deleted
        (λ deleted_count. do
          event normal "KubeconfigCleanupSucceeded"
              (sprintf ("Deleted " ∷ decimal deleted_count ∷ " kubeconfig secret(s)" ∷ []))
          pure none)
        (λ x. pure (some x))

  unfoldable pub cleanup_kubeconfig : DpfHcpBridge → Action (Option Failure)
  cleanup_kubeconfig cr = do
    reply ← list_secrets k (owner_labels cr)
    on_reply reply cleanup_listed
        (λ e. pure (some (wrapped "failed to list kubeconfig secrets" (api e))))

  abbrev pub kubeconfig_handler : CleanupHandler
  kubeconfig_handler = record { name = "kubeconfig-injection"; cleanup = cleanup_kubeconfig }
