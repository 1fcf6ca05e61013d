-- ===== src/Kubeconfig/Watch.antt =====
-- internal/controller/kubeconfiginjection/watch.go
use dpf_hcp_bridge_operator.Base.{Bool, false, List, [], ◌∷◌}
use dpf_hcp_bridge_operator.Base.Text.{has_suffix, trim_suffix}
use dpf_hcp_bridge_operator.Types.{NamespacedName, Secret, key_of}
use dpf_hcp_bridge_operator.Platform.{Client, Action, pure, ◌>>=◌, on_reply, get_bridge}
use dpf_hcp_bridge_operator.Kubeconfig.Injector.{kubeconfig_secret_suffix}

-- An object that a watch delivers: a secret, or another kind.
pub data WatchedObject : Type 0 where
  secret : Secret → WatchedObject
  other_object : WatchedObject

unfoldable pub is_hosted_cluster_kubeconfig_secret : WatchedObject → Bool
is_hosted_cluster_kubeconfig_secret (secret s) = has_suffix s.meta.name kubeconfig_secret_suffix
is_hosted_cluster_kubeconfig_secret other_object = false

unfoldable pub find_bridge_for_kubeconfig_secret :
    Client → WatchedObject → Action (List NamespacedName)
find_bridge_for_kubeconfig_secret k other_object = pure []
find_bridge_for_kubeconfig_secret k (secret s) = do
  reply ← get_bridge k (record {
    namespace = s.meta.namespace;
    name = trim_suffix s.meta.name kubeconfig_secret_suffix;
  })
  on_reply reply (λ bridge. pure (key_of bridge.meta ∷ [])) (λ e. pure [])
