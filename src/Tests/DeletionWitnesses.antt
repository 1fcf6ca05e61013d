-- ===== src/Tests/DeletionWitnesses.antt =====
-- The deletion of a bridge over three reconciliations, at a concrete server.
use dpf_hcp_bridge_operator.Base.{
  some_apart, false, none, some, [], ◌∷◌, ◌≡◌, refl, sym, inl, inr, ◌⊎◌,
}
use dpf_hcp_bridge_operator.Base.Result.{on_result}
use dpf_hcp_bridge_operator.Types.{DpfHcpBridge, NodePool}
use dpf_hcp_bridge_operator.Platform.{
  Client, ok, Call, Trace, pure, ◌>>=◌, call, on_reply, on_option, done,
}
use dpf_hcp_bridge_operator.Platform.Only.{Logged}
use dpf_hcp_bridge_operator.Finalizer.{register_handler, handle_finalizer_cleanup}
use dpf_hcp_bridge_operator.HostedCluster.Cleanup.{delete_resource, cleanup_hosted_cluster}
use dpf_hcp_bridge_operator.HostedCluster.Cleanup.Order.{deletes_node_pool}
use dpf_hcp_bridge_operator.HostedCluster.Cleanup.Remains.{Remains, Marked, Settled}
use dpf_hcp_bridge_operator.Kubeconfig.Cleanup.{cleanup_kubeconfig, cleanup_listed}
use dpf_hcp_bridge_operator.Controller.Phase.{update_phase_from_conditions}
use dpf_hcp_bridge_operator.Controller.Deletion.{
  registered_handlers, without_finalizer, run_cleanup, handle_deletion,
}
use dpf_hcp_bridge_operator.Controller.Reconcile.{reconcile_bridge, reconcile}
use dpf_hcp_bridge_operator.Controller.Reconcile.Deletes.{Attempt, reconcile_deletes_third}
use dpf_hcp_bridge_operator.Tests.Traces.{has_made, has_made_lem}
use dpf_hcp_bridge_operator.Tests.Fixtures.{
  helpers, bridge, request, not_found, hosted, pool, populated, pooled, drained,
}

abbrev doomed : DpfHcpBridge
doomed = record bridge { meta = record bridge.meta { deletion_timestamp = some 5 } }

abbrev all_left : Remains
all_left = record { hosted_cluster = some hosted; node_pool = some pool }

abbrev pool_left : Remains
pool_left = record { hosted_cluster = none; node_pool = some pool }

abbrev none_left : Remains
none_left = record { hosted_cluster = none; node_pool = none }

abbrev first : Client
first = record populated { get_bridge = λ h key. ok doomed }

abbrev second : Client
second = record pooled { get_bridge = λ h key. ok doomed }

abbrev third : Client
third = record drained { get_bridge = λ h key. ok doomed }

first-Attempt : Attempt helpers request all_left first []
first-Attempt = record {
  bridge = doomed;
  fetched = refl;
  own_key = refl;
  deleted = refl;
  present = refl;
  answers = record {
    hosted_cluster = λ h. refl;
    node_pool = λ h. refl;
    delete_hosted_cluster = λ h. refl;
    delete_node_pool = λ h. refl;
    secret = λ h key. inr (not_found, refl, refl);
    delete_secret = λ h key. refl;
  };
  stored = λ t b. refl;
  copies = λ t labels. ([], refl);
}

second-Attempt : Attempt helpers request pool_left second []
second-Attempt = record {
  bridge = doomed;
  fetched = refl;
  own_key = refl;
  deleted = refl;
  present = refl;
  answers = record {
    hosted_cluster = λ h. (not_found, refl, refl);
    node_pool = λ h. refl;
    delete_hosted_cluster = λ h. refl;
    delete_node_pool = λ h. refl;
    secret = λ h key. inr (not_found, refl, refl);
    delete_secret = λ h key. refl;
  };
  stored = λ t b. refl;
  copies = λ t labels. ([], refl);
}

abbrev third-Attempt : Attempt helpers request none_left third []
third-Attempt = record {
  bridge = doomed;
  fetched = refl;
  own_key = refl;
  deleted = refl;
  present = refl;
  answers = record {
    hosted_cluster = λ h. (not_found, refl, refl);
    node_pool = λ h. (not_found, refl, refl);
    delete_hosted_cluster = λ h. refl;
    delete_node_pool = λ h. refl;
    secret = λ h key. inr (not_found, refl, refl);
    delete_secret = λ h key. refl;
  };
  stored = λ t b. refl;
  copies = λ t labels. ([], refl);
}

first_silent :
    has_made deletes_node_pool (reconcile helpers first (registered_handlers first) [] request []).1
    ≡ false
unfolding reconcile reconcile_bridge handle_deletion run_cleanup registered_handlers
    register_handler handle_finalizer_cleanup cleanup_kubeconfig cleanup_listed
    cleanup_hosted_cluster delete_resource update_phase_from_conditions ◌>>=◌ call on_reply
    on_option on_result pure
first_silent = refl

not_deleted :
    ¬ Logged
      (Call.delete_node_pool request (ok tt))
      (reconcile helpers first (registered_handlers first) [] request []).1
not_deleted l = absurd (cc (has_made_lem deletes_node_pool _ _ refl l, first_silent))

unmarked : ¬ Marked pool.meta
unmarked e = absurd (cc e)

-- The first reconciliation leaves the NodePool as it is.
first-untouched :
    (np : NodePool)
    → some pool ≡ some np
    → Marked np.meta
      ⊎ Logged
          (Call.delete_node_pool request (ok tt))
          (reconcile helpers first (registered_handlers first) [] request []).1
    → pool_left.node_pool ≡ none
first-untouched np e (inl marked) = absurd (unmarked (rw (sym (some_apart pool np e)) at marked))
first-untouched np e (inr l) = absurd (not_deleted l)

first-Settled :
    Settled request all_left pool_left
      (reconcile helpers first (registered_handlers first) [] request []).1
first-Settled = record {
  hosted_cluster-absent = λ e. refl;
  node_pool-absent = λ e. e;
  hosted_cluster-removed = λ hc e gone. refl;
  node_pool-removed = λ np e gone. first-untouched np e gone;
}

second-Settled :
    Settled request pool_left none_left
      (reconcile helpers second (registered_handlers second) [] request []).1
second-Settled = record {
  hosted_cluster-absent = λ e. refl;
  node_pool-absent = λ e. refl;
  hosted_cluster-removed = λ hc e gone. refl;
  node_pool-removed = λ np e gone. refl;
}

reconcile_deletes_third_example :
    let cr = update_phase_from_conditions helpers doomed in
    let r = reconcile helpers third (registered_handlers third) [] request [] in
    (r.0 ≡ done)
    × ((before : Trace) × (r.1
          ≡ Call.update_bridge (without_finalizer helpers cr) (ok (without_finalizer helpers cr))
            ∷ before))
reconcile_deletes_third_example =
    reconcile_deletes_third helpers [] request all_left pool_left none_left first second third [] []
      [] first-Attempt first-Settled second-Attempt second-Settled third-Attempt (λ t b. refl)
