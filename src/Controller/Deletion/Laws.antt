-- ===== src/Controller/Deletion/Laws.antt =====
-- When `handleDeletion` removes the finalizer.
use dpf_hcp_bridge_operator.Base.{Bool, true, none, List, [], ◌∷◌, ◌≡◌, refl, arith}
use dpf_hcp_bridge_operator.Types.{DpfHcpBridge, Secret}
use dpf_hcp_bridge_operator.Platform.{Client, Meta, Call}
use dpf_hcp_bridge_operator.Platform.Only.{
  Only, only_rules, Only-result, Only-weaken, Only-bind, Only-pure, Only-reply, Only-if,
}
use dpf_hcp_bridge_operator.Finalizer.{handle_finalizer_cleanup}
use dpf_hcp_bridge_operator.Finalizer.Laws.{handle_finalizer_cleanup-Only}
use dpf_hcp_bridge_operator.HostedCluster.Cleanup.Calls.{
  deleting_hosted_cluster, cleanup_hosted_cluster-Only,
}
use dpf_hcp_bridge_operator.Kubeconfig.Cleanup.{delete_found, cleanup_listed, cleanup_kubeconfig}
use dpf_hcp_bridge_operator.Controller.Deletion.{
  registered_handlers, remove_finalizer_step, run_cleanup, handle_deletion,
}

-- The calls of the two handlers.
abbrev pub cleaning : Call → Bool
cleaning (Call.list_secrets labels r) = true
cleaning c = deleting_hosted_cluster c

-- With those, the calls of the whole deletion.
abbrev pub deleting : Call → Bool
deleting (Call.update_bridge b r) = true
deleting (Call.update_bridge_status b r) = true
deleting c = cleaning c

hosted_cluster→cleaning : (c : Call) → deleting_hosted_cluster c ≡ true → cleaning c ≡ true
hosted_cluster→cleaning c h = ground arith

cleaning→deleting : (c : Call) → cleaning c ≡ true → deleting c ≡ true
cleaning→deleting c h = ground arith

module _ (k : Client) where
  delete_found-Only : (found : List Secret) (n : _) → Only cleaning (delete_found k found n)
  unfolding delete_found
  delete_found-Only [] n = Only-pure _
  delete_found-Only (s ∷ rest) n = Only-bind _ _ (search (only_rules)) (λ r.
      Only-reply r _ _ (λ u. delete_found-Only rest _)
        (λ e. Only-if e.is_not_found _ _ (delete_found-Only rest _) (Only-pure _)))

  cleanup_listed-Only : (found : List Secret) → Only cleaning (cleanup_listed k found)
  unfolding cleanup_listed
  cleanup_listed-Only [] = Only-pure none
  cleanup_listed-Only (s ∷ rest) =
      Only-bind _ _ (delete_found-Only (s ∷ rest) 0) (λ r. search (only_rules, Only-result))

  cleanup_kubeconfig-Only : (cr : DpfHcpBridge) → Only cleaning (cleanup_kubeconfig k cr)
  unfolding cleanup_kubeconfig
  cleanup_kubeconfig-Only cr = search (only_rules, cleanup_listed-Only) depth 12

  -- The registered handlers delete, and nothing else.
  pub cleanup-Only :
      (cr : DpfHcpBridge) → Only cleaning (handle_finalizer_cleanup (registered_handlers k) cr)
  unfolding registered_handlers
  cleanup-Only cr =
      handle_finalizer_cleanup-Only (λ t r s. refl) _ cr
        (
          cleanup_kubeconfig-Only,
          ((λ b. Only-weaken hosted_cluster→cleaning (cleanup_hosted_cluster-Only k b)), tt),
        )

  pub handle_deletion-Only :
      (m : Meta) (cr : DpfHcpBridge)
      → Only deleting (handle_deletion m k (registered_handlers k) cr)
  unfolding handle_deletion run_cleanup remove_finalizer_step
  handle_deletion-Only m cr =
      search (only_rules, Only-weaken cleaning→deleting, cleanup-Only) depth 16
