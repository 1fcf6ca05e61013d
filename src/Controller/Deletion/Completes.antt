-- ===== src/Controller/Deletion/Completes.antt =====
-- The deletion of a bridge of which nothing is left.
use dpf_hcp_bridge_operator.Base.{String, true, none, List, [], ◌∷◌, ◌≡◌, refl}
use dpf_hcp_bridge_operator.Base.Result.{on_result}
use dpf_hcp_bridge_operator.Types.{DpfHcpBridge, NamespacedName, key_of}
use dpf_hcp_bridge_operator.Platform.{
  Client, Meta, Call, Trace, ApiError, ok, err, done, pure, ◌>>=◌, call, on_reply, on_option,
}
use dpf_hcp_bridge_operator.Finalizer.{CleanupHandler, handle_finalizer_cleanup}
use dpf_hcp_bridge_operator.Finalizer.Laws.{AllClean, handle_finalizer_cleanup_exact}
use dpf_hcp_bridge_operator.HostedCluster.Cleanup.{
  delete_secret_by_name, delete_all, delete_secrets, cleanup_secrets, cleanup_node_pool,
  cleanup_hosted_cluster,
}
use dpf_hcp_bridge_operator.HostedCluster.Cleanup.Gone.{
  says_gone, remove_hosted_cluster-absent, remove_node_pool-absent,
}
use dpf_hcp_bridge_operator.Kubeconfig.Cleanup.{cleanup_kubeconfig, cleanup_listed}
use dpf_hcp_bridge_operator.Controller.Deletion.{
  finalizer_name, registered_handlers, without_finalizer, remove_finalizer_step, run_cleanup,
  handle_deletion,
}

-- The server has none of the objects that the bridge created.
pub record NothingLeft (k : Client) : Type 0 where
  pub hosted_cluster :
      (h : Trace) (key : NamespacedName)
      → (e : ApiError) × (k.get_hosted_cluster h key ≡ err e) × (says_gone e ≡ true)
  pub node_pool :
      (h : Trace) (key : NamespacedName)
      → (e : ApiError) × (k.get_node_pool h key ≡ err e) × (says_gone e ≡ true)
  pub secret :
      (h : Trace) (key : NamespacedName)
      → (e : ApiError) × (k.get_secret h key ≡ err e) × (e.is_not_found ≡ true)
  pub copies : (h : Trace) (labels : _) → k.list_secrets h labels ≡ ok []

module _ (m : Meta) (k : Client) (handlers : List CleanupHandler) where
  -- A deletion whose handlers report no error takes the finalizer off the bridge.
  pub handle_deletion-AllClean :
      (cr : DpfHcpBridge) (h : Trace)
      → m.contains_finalizer cr.meta finalizer_name ≡ true
      → k.update_bridge_status h cr ≡ ok cr
      → ((t : Trace) (b : DpfHcpBridge) → k.update_bridge t b ≡ ok b)
      → AllClean handlers cr (Call.update_bridge_status cr (ok cr) ∷ h)
      → let r = handle_deletion m k handlers cr h in
        (r.0.1 ≡ done)
        × ((before : Trace) × (r.1
              ≡ Call.update_bridge (without_finalizer m cr) (ok (without_finalizer m cr)) ∷ before))
  unfolding handle_deletion run_cleanup remove_finalizer_step ◌>>=◌ call on_reply pure
  handle_deletion-AllClean cr h present stored accepted clean =
      let h' : Trace = Call.update_bridge_status cr (ok cr) ∷ h in
      let goes_on = (handle_finalizer_cleanup_exact handlers cr h').1 clean in
      let t = (handle_finalizer_cleanup handlers cr h').1 in
      simp (stored, present, goes_on) (rw (accepted t (without_finalizer m cr)) (refl, (t, refl)))

module _ (k : Client) (left : NothingLeft k) where
  delete_all-absent :
      (namespace : String) (names : List String) (h : Trace)
      → (delete_all k namespace names h).0 ≡ none
  unfolding delete_all delete_secret_by_name ◌>>=◌ call on_reply on_option pure
  delete_all-absent namespace [] h = refl
  delete_all-absent namespace (name ∷ rest) h =
      let (e, failed, missing) = left.secret h (record { namespace = namespace; name = name }) in
      simp (failed, missing) (delete_all-absent namespace rest _)

  cleanup_secrets-absent : (cr : DpfHcpBridge) (h : Trace) → (cleanup_secrets k cr h).0 ≡ none
  unfolding cleanup_secrets delete_secrets ◌>>=◌ on_option pure call
  cleanup_secrets-absent cr h = rw (delete_all-absent cr.meta.namespace _ h) refl

  cleanup_node_pool-absent : (cr : DpfHcpBridge) (h : Trace) → (cleanup_node_pool k cr h).0 ≡ none
  unfolding cleanup_node_pool ◌>>=◌ on_result
  cleanup_node_pool-absent cr h =
      let (e, failed, says) = left.node_pool h (key_of cr.meta) in
      rw (remove_node_pool-absent k cr h e failed says) (cleanup_secrets-absent cr _)

  cleanup_hosted_cluster-absent :
      (cr : DpfHcpBridge) (h : Trace) → (cleanup_hosted_cluster k cr h).0 ≡ none
  unfolding cleanup_hosted_cluster ◌>>=◌ on_result
  cleanup_hosted_cluster-absent cr h =
      let (e, failed, says) = left.hosted_cluster h (key_of cr.meta) in
      rw (remove_hosted_cluster-absent k cr h e failed says) (cleanup_node_pool-absent cr _)

  cleanup_kubeconfig-absent : (cr : DpfHcpBridge) (h : Trace) → (cleanup_kubeconfig k cr h).0 ≡ none
  unfolding cleanup_kubeconfig cleanup_listed ◌>>=◌ call on_reply pure
  cleanup_kubeconfig-absent cr h = rw (left.copies h _) refl

  registered-AllClean : (cr : DpfHcpBridge) (h : Trace) → AllClean (registered_handlers k) cr h
  unfolding registered_handlers
  registered-AllClean cr h =
      (cleanup_kubeconfig-absent cr h, (cleanup_hosted_cluster-absent cr _, tt))

  -- Where the server has no HostedCluster, no NodePool, no secret and lists no copies, and accepts both
  -- updates as they are sent: the deletion of a bridge with the finalizer completes, and its last call
  -- stores the bridge without the finalizer.
  pub handle_deletion_completes :
      (m : Meta) (cr : DpfHcpBridge) (h : Trace)
      → m.contains_finalizer cr.meta finalizer_name ≡ true
      → k.update_bridge_status h cr ≡ ok cr
      → ((t : Trace) (b : DpfHcpBridge) → k.update_bridge t b ≡ ok b)
      → let r = handle_deletion m k (registered_handlers k) cr h in
        (r.0.1 ≡ done)
        × ((before : Trace) × (r.1
              ≡ Call.update_bridge (without_finalizer m cr) (ok (without_finalizer m cr)) ∷ before))
  handle_deletion_completes m cr h present stored accepted =
      handle_deletion-AllClean m k (registered_handlers k) cr h present stored accepted
        (registered-AllClean cr _)
