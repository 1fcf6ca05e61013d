-- ===== src/Controller/Reconcile/Deletes.antt =====
-- The deletion of a bridge over several reconciliations.
use dpf_hcp_bridge_operator.Base.{String, true, none, List, ◌∷◌, ◌≡◌, refl, ◌∙◌, is_some, Assoc, ap}
use dpf_hcp_bridge_operator.Types.{DpfHcpBridge, NamespacedName, Secret, key_of}
use dpf_hcp_bridge_operator.Platform.{
  Client, Meta, Call, Trace, Outcome, ok, done, pure, ◌>>=◌, call, on_reply,
}
use dpf_hcp_bridge_operator.Platform.Only.{Keeps}
use dpf_hcp_bridge_operator.Finalizer.{register_handler}
use dpf_hcp_bridge_operator.HostedCluster.StatusSync.{ConditionMapping}
use dpf_hcp_bridge_operator.HostedCluster.Cleanup.{cleanup_hosted_cluster}
use dpf_hcp_bridge_operator.HostedCluster.Cleanup.Remains.{Remains, Answers, Settled}
use dpf_hcp_bridge_operator.HostedCluster.Cleanup.Attempts.{
  cleanup-none, Settled-hosted_cluster, Settled-node_pool,
}
use dpf_hcp_bridge_operator.Controller.Phase.{update_phase_from_conditions}
use dpf_hcp_bridge_operator.Controller.PhaseLaws.{update_phase-meta}
use dpf_hcp_bridge_operator.Controller.Deletion.{
  finalizer_name, registered_handlers, without_finalizer, handle_deletion,
}
use dpf_hcp_bridge_operator.Controller.Deletion.Completes.{handle_deletion-AllClean}
use dpf_hcp_bridge_operator.Controller.Deletion.Runs.{
  cleanup_kubeconfig-none, handle_deletion-Keeps,
}
use dpf_hcp_bridge_operator.Controller.Reconcile.{reconcile_bridge, reconcile}

-- One reconciliation of the deletion: the server has the bridge, marked for deletion and with the
-- finalizer, answers from what remains of the bridge's objects, lists some copies of the kubeconfig,
-- and stores the status that it is sent.
pub record Attempt (m : Meta) (req : NamespacedName) (st : Remains) (k : Client) (h : Trace)
    : Type 0 where
  pub bridge : DpfHcpBridge
  pub fetched : k.get_bridge h req ≡ ok bridge
  pub own_key : key_of bridge.meta ≡ req
  pub deleted : is_some bridge.meta.deletion_timestamp ≡ true
  pub present : m.contains_finalizer bridge.meta finalizer_name ≡ true
  pub answers : Answers st req k
  pub stored : (t : Trace) (b : DpfHcpBridge) → k.update_bridge_status t b ≡ ok b
  pub copies :
      (t : Trace) (labels : Assoc String)
      → (found : List Secret) × (k.list_secrets t labels ≡ ok found)

module _ (m : Meta) (order : List ConditionMapping) (req : NamespacedName) where
  abbrev reconciliation : Client → Trace → Outcome × Trace
  reconciliation k h = reconcile m k (registered_handlers k) order req h

  -- The bridge with its phase.
  abbrev phased : {st : Remains} {k : Client} {h : Trace} → Attempt m req st k h → DpfHcpBridge
  phased a = update_phase_from_conditions m a.bridge

  reconcile-deletion :
      (st : Remains) (k : Client) (h : Trace) (a : Attempt m req st k h)
      → let r =
          handle_deletion m k
            (registered_handlers k)
            (phased a)
            (Call.get_bridge req (ok a.bridge) ∷ h) in
        reconciliation k h ≡ (r.0.1, r.1)
  unfolding reconcile reconcile_bridge ◌>>=◌ call on_reply pure
  reconcile-deletion st k h a =
      let deleted : is_some (phased a).meta.deletion_timestamp ≡ true =
        rw (update_phase-meta m a.bridge) a.deleted in
      rw a.fetched (rw deleted refl)

  phased-present :
      {st : Remains} {k : Client} {h : Trace} (a : Attempt m req st k h)
      → m.contains_finalizer (phased a).meta finalizer_name ≡ true
  phased-present a = rw (update_phase-meta m a.bridge) a.present

  phased-key :
      {st : Remains} {k : Client} {h : Trace} (a : Attempt m req st k h)
      → key_of (phased a).meta ≡ req
  phased-key a = ap key_of (update_phase-meta m a.bridge) ∙ a.own_key

  -- Each attempt runs the cleanup of the HostedCluster.
  attempt-Keeps :
      {st : Remains} {k : Client} {h : Trace} (a : Attempt m req st k h)
      → (t : Trace) × Keeps (cleanup_hosted_cluster k (phased a) t).1 (reconciliation k h).1
  attempt-Keeps {st} {k} {h} a =
      let (t, keeps) =
        handle_deletion-Keeps m k (phased a) (Call.get_bridge req (ok a.bridge) ∷ h)
          (phased-present a) (a.stored _ _)
          (λ u. cleanup_kubeconfig-none k a.answers.delete_secret (phased a) u a.copies) in
      (t, rw (reconcile-deletion st k h a) keeps)

  attempt-hosted_cluster :
      {st st' : Remains} {k : Client} {h : Trace} (a : Attempt m req st k h)
      → Settled req st st' (reconciliation k h).1
      → st'.hosted_cluster ≡ none
  attempt-hosted_cluster {st} {st'} {k} a settled =
      let (t, keeps) = attempt-Keeps a in
      Settled-hosted_cluster (phased a) st st' k t _ (rw (phased-key a) a.answers) keeps
        (rw (phased-key a) settled)

  attempt-node_pool :
      {st st' : Remains} {k : Client} {h : Trace} (a : Attempt m req st k h)
      → st.hosted_cluster ≡ none
      → Settled req st st' (reconciliation k h).1
      → st'.node_pool ≡ none
  attempt-node_pool {st} {st'} {k} a gone settled =
      let (t, keeps) = attempt-Keeps a in
      Settled-node_pool (phased a) st st' k t _ (rw (phased-key a) a.answers) gone keeps
        (rw (phased-key a) settled)

  -- The reconciliation of a bridge of which nothing but secrets is left.
  last_attempt :
      {st : Remains} {k : Client} {h : Trace} (a : Attempt m req st k h)
      → st.hosted_cluster ≡ none
      → st.node_pool ≡ none
      → ((t : Trace) (b : DpfHcpBridge) → k.update_bridge t b ≡ ok b)
      → ((reconciliation k h).0 ≡ done)
        × ((before : Trace) × ((reconciliation k h).1
              ≡ Call.update_bridge
                  (without_finalizer m (phased a))
                  (ok (without_finalizer m (phased a)))
                ∷ before))
  unfolding registered_handlers register_handler
  last_attempt {st} {k} {h} a gone gone_too accepted =
      let key = phased-key a in
      rw (reconcile-deletion st k h a) (
        handle_deletion-AllClean m k (registered_handlers k) (phased a) _ (phased-present a)
          (a.stored _ _) accepted
          (
            cleanup_kubeconfig-none k a.answers.delete_secret (phased a) _ a.copies,
            (cleanup-none (phased a) st k (rw key a.answers) gone gone_too _, tt),
          ))

  -- Where in three reconciliations of a bridge that is marked for deletion and has the finalizer the
  -- server answers from what remains of its HostedCluster and NodePool, accepts each deletion, lists the copies of the
  -- kubeconfig and stores the status that it is sent, where it removes between two reconciliations what is marked or
  -- has been deleted, where nobody creates the HostedCluster or the NodePool anew, and where the server accepts the
  -- last update: the third reconciliation, with the handlers that the program registers,
  -- returns without an error and without a requeue, and its last call stores the bridge without the finalizer.
  pub reconcile_deletes_third :
      (st st' st'' : Remains) (k k' k'' : Client) (h h' h'' : Trace)
      → Attempt m req st k h
      → Settled req st st' (reconcile m k (registered_handlers k) order req h).1
      → Attempt m req st' k' h'
      → Settled req st' st'' (reconcile m k' (registered_handlers k') order req h').1
      → (a : Attempt m req st'' k'' h'')
      → ((t : Trace) (b : DpfHcpBridge) → k''.update_bridge t b ≡ ok b)
      → let cr = update_phase_from_conditions m a.bridge in
        let r = reconcile m k'' (registered_handlers k'') order req h'' in
        (r.0 ≡ done)
        × ((before : Trace) × (r.1
              ≡ Call.update_bridge (without_finalizer m cr) (ok (without_finalizer m cr)) ∷ before))
  reconcile_deletes_third st st' st'' k k' k'' h h' h'' first settled second settled' third
        accepted =
      let gone = attempt-hosted_cluster first settled in
      last_attempt third (settled'.hosted_cluster-absent gone)
        (attempt-node_pool second gone settled') accepted
