-- ===== src/Controller/Watches/RoundTrip.antt =====
-- The secret that an injection waits for, and the watch that ends the wait.
use dpf_hcp_bridge_operator.Base.{true, List, [], ◌∷◌, ◌≡◌, ap}
use dpf_hcp_bridge_operator.Base.Text.{has_suffix, trim_suffix}
use dpf_hcp_bridge_operator.Base.Suffix.{has_suffix-append, trim_suffix-append}
use dpf_hcp_bridge_operator.Types.{DpfHcpBridge, Secret, HostedCluster, NamespacedName, key_of}
use dpf_hcp_bridge_operator.Platform.{Client, Action, Trace, ok, pure, ◌>>=◌, call, on_reply}
use dpf_hcp_bridge_operator.Kubeconfig.Injector.{
  kubeconfig_secret_name, kubeconfig_secret_suffix, source_key,
}
use dpf_hcp_bridge_operator.Kubeconfig.Watch.{
  WatchedObject, is_hosted_cluster_kubeconfig_secret, find_bridge_for_kubeconfig_secret,
}
use dpf_hcp_bridge_operator.Controller.Watches.Setup.{
  Predicate, is_hosted_cluster_kubeconfig_secret_predicate, kubeconfig_secret_to_requests,
  setup_with_manager,
}

-- Every event of the object but a generic one passes.
abbrev pub Passes : {A : Type 0} → Predicate A → A → Type 0
Passes p o =
    (p.create_func o ≡ true) × ((old : _) → p.update_func old o ≡ true) × (p.delete_func o ≡ true)

has_suffix-kubeconfig_secret_name :
    (b : DpfHcpBridge) → has_suffix (kubeconfig_secret_name b) kubeconfig_secret_suffix ≡ true
unfolding kubeconfig_secret_name
has_suffix-kubeconfig_secret_name b = has_suffix-append b.meta.name kubeconfig_secret_suffix

trim_suffix-kubeconfig_secret_name :
    (b : DpfHcpBridge)
    → trim_suffix (kubeconfig_secret_name b) kubeconfig_secret_suffix ≡ b.meta.name
unfolding kubeconfig_secret_name
trim_suffix-kubeconfig_secret_name b = trim_suffix-append b.meta.name kubeconfig_secret_suffix

-- Where the server gives the bridge under its own key: every creation, update and deletion of the
-- secret that an injection for the bridge reads passes the watch of the kubeconfigs, and reconciles
-- exactly that bridge.
pub kubeconfig_secret_watched :
    (k : Client) (owner : HostedCluster → Action (List NamespacedName)) (b : DpfHcpBridge)
    (s : Secret) (h : Trace)
    → key_of s.meta ≡ source_key b (kubeconfig_secret_name b)
    → k.get_bridge h (key_of b.meta) ≡ ok b
    → let w = (setup_with_manager k owner).kubeconfig_secrets in
      Passes w.predicate (WatchedObject.secret s)
      × ((w.requests (WatchedObject.secret s) h).0 ≡ key_of b.meta ∷ [])
unfolding setup_with_manager is_hosted_cluster_kubeconfig_secret_predicate
    kubeconfig_secret_to_requests is_hosted_cluster_kubeconfig_secret
    find_bridge_for_kubeconfig_secret ◌>>=◌ call on_reply pure
kubeconfig_secret_watched k owner b s h named found =
    let name : s.meta.name ≡ kubeconfig_secret_name b = ap (λ q. q.name) named in
    let namespace : s.meta.namespace ≡ b.meta.namespace = ap (λ q. q.namespace) named in
    let suffix = has_suffix-kubeconfig_secret_name b in
    let trimmed = trim_suffix-kubeconfig_secret_name b in
    let passes : has_suffix s.meta.name kubeconfig_secret_suffix ≡ true = rw name suffix in
    ((passes, (λ old. passes), passes), simp (name, namespace, trimmed, found))
