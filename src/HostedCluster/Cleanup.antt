-- ===== src/HostedCluster/Cleanup.antt =====
-- internal/controller/hostedcluster/cleanup_handler.go
pub mod Calls
pub mod Gone
pub mod Order
pub mod Remains
pub mod Attempts
use dpf_hcp_bridge_operator.Base.{
  String, Bool, true, false, Option, none, some, List, [], ◌∷◌, is_some, if◌then◌else◌,
}
use dpf_hcp_bridge_operator.Base.Text.{append, sprintf}
use dpf_hcp_bridge_operator.Base.Result.{Result, success, failure, on_result}
use dpf_hcp_bridge_operator.Types.{DpfHcpBridge, ObjectMeta, NamespacedName, key_of}
use dpf_hcp_bridge_operator.Platform.{
  Client, Action, Failure, Reply, wrapped, errorf, api, pure, ◌>>=◌, ◌>>◌, on_reply, on_option,
  event, normal, get_hosted_cluster, delete_hosted_cluster, get_node_pool, delete_node_pool,
  get_secret, delete_secret,
}
use dpf_hcp_bridge_operator.Finalizer.{CleanupHandler}

-- `deleteResource`, over the calls for its kind of object. The result is true once the object is
-- gone.
unfoldable pub delete_resource :
    {A : Type 0}
    → Action (Reply A)
    → (A → ObjectMeta)
    → Action (Reply (Unit {0}))
    → String
    → Action (Result Failure Bool)
delete_resource get meta_of delete resource_kind = do
  reply ← get
  on_reply reply
      (λ obj. if is_some (meta_of obj).deletion_timestamp then pure (success false) else (do
        deleted ← delete
        on_reply deleted (λ u. pure (success false))
            (λ e.
              if e.is_not_found
              then pure (success true)
              else pure (failure (wrapped (append "failed to delete " resource_kind) (api e))))))
      (λ e.
        if e.is_not_found
        then pure (success true)
        else if e.is_no_match
        then pure (success true)
        else pure (failure (wrapped (append "failed to get " resource_kind) (api e))))

module _ (k : Client) where
  unfoldable pub delete_secret_by_name : String → String → Action (Option Failure)
  delete_secret_by_name namespace secret_name = do
    let secret_key : NamespacedName = record { namespace = namespace; name = secret_name }
    reply ← get_secret k secret_key
    on_reply reply
        (λ secret. do
          deleted ← delete_secret k secret_key
          on_reply deleted (λ u. pure none)
              (λ e.
                if e.is_not_found
                then pure none
                else pure (some (wrapped (append "failed to delete secret " secret_name) (api e)))))
        (λ e.
          if e.is_not_found
          then pure none
          else pure (some (wrapped (append "failed to get secret " secret_name) (api e))))

  -- The loop of `deleteSecrets`.
  unfoldable pub delete_all : String → List String → Action (Option Failure)
  delete_all namespace [] = pure none
  delete_all namespace (secret_name ∷ rest) = do
    failed ← delete_secret_by_name namespace secret_name
    on_option failed (λ x. pure (some x)) (delete_all namespace rest)

  unfoldable pub delete_secrets : DpfHcpBridge → Action (Option Failure)
  delete_secrets cr = delete_all cr.meta.namespace (
      append cr.meta.name "-pull-secret"
      ∷ append cr.meta.name "-ssh-key"
      ∷ append cr.meta.name "-etcd-encryption-key"
      ∷ [])

  -- Step 3 and the end of `Cleanup`.
  unfoldable pub cleanup_secrets : DpfHcpBridge → Action (Option Failure)
  cleanup_secrets cr = do
    failed ← delete_secrets cr
    on_option failed (λ x. pure (some x))
        (do
          event normal "HostedClusterCleanupSucceeded"
              "HostedCluster, NodePool, and secrets deleted successfully"
          pure none)

  -- Step 2 and what follows it.
  unfoldable pub cleanup_node_pool : DpfHcpBridge → Action (Option Failure)
  cleanup_node_pool cr = do
    np ←
        delete_resource (get_node_pool k (key_of cr.meta)) (λ o. o.meta)
          (delete_node_pool k (key_of cr.meta)) "NodePool"
    on_result np
        (λ deleted.
          if deleted
          then cleanup_secrets cr
          else pure (some (errorf "waiting for NodePool deletion")))
        (λ x. pure (some x))

  unfoldable pub cleanup_hosted_cluster : DpfHcpBridge → Action (Option Failure)
  cleanup_hosted_cluster cr = do
    hc ←
        delete_resource (get_hosted_cluster k (key_of cr.meta)) (λ o. o.meta)
          (delete_hosted_cluster k (key_of cr.meta)) "HostedCluster"
    on_result hc
        (λ deleted.
          if deleted
          then cleanup_node_pool cr
          else pure (some (errorf "waiting for HostedCluster deletion")))
        (λ x. pure (some x))

  abbrev pub hosted_cluster_handler : CleanupHandler
  hosted_cluster_handler = record { name = "hostedcluster"; cleanup = cleanup_hosted_cluster }
