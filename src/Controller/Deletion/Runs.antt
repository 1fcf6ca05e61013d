-- ===== src/Controller/Deletion/Runs.antt =====
-- What the deletion of a bridge runs where the server accepts what it is asked.
use dpf_hcp_bridge_operator.Base.{ℕ, String, true, none, List, [], ◌∷◌, ◌≡◌, refl, Assoc}
use dpf_hcp_bridge_operator.Base.Result.{success, on_result}
use dpf_hcp_bridge_operator.Types.{DpfHcpBridge, NamespacedName, Secret, key_of}
use dpf_hcp_bridge_operator.Platform.{
  Client, Meta, Call, Trace, Action, ok, pure, ◌>>=◌, call, on_reply, on_option,
}
use dpf_hcp_bridge_operator.Platform.Only.{
  anything, Only, only_rules, Keeps, Only-Keeps, Keeps-trans,
}
use dpf_hcp_bridge_operator.Finalizer.{CleanupHandler, register_handler, handle_finalizer_cleanup}
use dpf_hcp_bridge_operator.HostedCluster.Cleanup.{cleanup_hosted_cluster, hosted_cluster_handler}
use dpf_hcp_bridge_operator.Kubeconfig.Cleanup.{
  owner_labels, delete_found, cleanup_listed, cleanup_kubeconfig, kubeconfig_handler,
}
use dpf_hcp_bridge_operator.Controller.Deletion.{
  finalizer_name, registered_handlers, remove_finalizer_step, run_cleanup, handle_deletion,
}

module _ (k : Client)
    (accepts : (t : Trace) (key : NamespacedName) → k.delete_secret t key ≡ ok tt) where
  delete_found-success :
      (found : List Secret) (n : ℕ) (h : Trace)
      → (count : ℕ) × ((delete_found k found n h).0 ≡ success count)
  unfolding delete_found ◌>>=◌ call on_reply pure
  delete_found-success [] n h = (n, refl)
  delete_found-success (s ∷ rest) n h =
      rw (accepts h (key_of s.meta)) (delete_found-success rest _ _)

  cleanup_listed-none : (found : List Secret) (h : Trace) → (cleanup_listed k found h).0 ≡ none
  unfolding cleanup_listed ◌>>=◌ call on_result pure
  cleanup_listed-none [] h = refl
  cleanup_listed-none (s ∷ rest) h =
      let (n, went) = delete_found-success (s ∷ rest) 0 h in rw went refl

  pub cleanup_kubeconfig-none :
      (cr : DpfHcpBridge) (h : Trace)
      → ((t : Trace) (labels : Assoc String)
          → (found : List Secret) × (k.list_secrets t labels ≡ ok found))
      → (cleanup_kubeconfig k cr h).0 ≡ none
  unfolding cleanup_kubeconfig ◌>>=◌ call on_reply pure
  cleanup_kubeconfig-none cr h copies =
      let (found, listed) = copies h (owner_labels cr) in rw listed (cleanup_listed-none found _)

bind-Keeps :
    {A B : Type 0} (n : Action A) (f : A → Action B) (h : Trace)
    → ((a : A) → Only anything (f a))
    → Keeps (n h).1 ((n >>= f) h).1
unfolding ◌>>=◌
bind-Keeps n f h of = Only-Keeps (n h).1 (of (n h).0)

skip-clean :
    (handler : CleanupHandler) (rest : List CleanupHandler) (cr : DpfHcpBridge) (h : Trace)
    → (handler.cleanup cr h).0 ≡ none
    → handle_finalizer_cleanup (handler ∷ rest) cr h
      ≡ handle_finalizer_cleanup rest cr (handler.cleanup cr h).1
unfolding handle_finalizer_cleanup ◌>>=◌ on_option
skip-clean handler rest cr h clean = rw clean refl

-- The manager runs its last handler, and its trace keeps the calls of the handler.
last_handler-Keeps :
    (handler : CleanupHandler) (cr : DpfHcpBridge) (h : Trace)
    → Keeps (handler.cleanup cr h).1 (handle_finalizer_cleanup (handler ∷ []) cr h).1
unfolding handle_finalizer_cleanup
last_handler-Keeps handler cr h =
    bind-Keeps (handler.cleanup cr) _ h (λ failed. search (only_rules))

module _ (m : Meta) (k : Client) where
  finish-anything :
      (handlers : List CleanupHandler) (cr : DpfHcpBridge)
      → Only anything (remove_finalizer_step m k handlers cr)
  unfolding remove_finalizer_step
  finish-anything handlers cr = search (only_rules)

  run_cleanup-Keeps :
      (handlers : List CleanupHandler) (cr : DpfHcpBridge) (h : Trace)
      → Keeps (handle_finalizer_cleanup handlers cr h).1 (run_cleanup m k handlers cr h).1
  unfolding run_cleanup
  run_cleanup-Keeps handlers cr h =
      bind-Keeps (handle_finalizer_cleanup handlers cr) _ h
        (λ r. search (only_rules, finish-anything))

  -- Where the copies of the kubeconfig are cleaned up, the cleanup of the HostedCluster runs.
  pub handle_deletion-Keeps :
      (cr : DpfHcpBridge) (h : Trace)
      → m.contains_finalizer cr.meta finalizer_name ≡ true
      → k.update_bridge_status h cr ≡ ok cr
      → ((t : Trace) → (cleanup_kubeconfig k cr t).0 ≡ none)
      → (t : Trace) × Keeps
          (cleanup_hosted_cluster k cr t).1
          (handle_deletion m k (registered_handlers k) cr h).1
  unfolding handle_deletion registered_handlers register_handler ◌>>=◌ call on_reply pure
  handle_deletion-Keeps cr h present stored clean =
      let h' : Trace = Call.update_bridge_status cr (ok cr) ∷ h in
      let t = (cleanup_kubeconfig k cr h').1 in
      (
        t,
        simp (stored, present)
            (Keeps-trans
              (rw
                (skip-clean (kubeconfig_handler k) (hosted_cluster_handler k ∷ []) cr h' (clean h'))
                (last_handler-Keeps (hosted_cluster_handler k) cr t))
              (run_cleanup-Keeps (kubeconfig_handler k ∷ hosted_cluster_handler k ∷ []) cr h')),
      )
