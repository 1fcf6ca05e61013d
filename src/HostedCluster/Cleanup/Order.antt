-- ===== src/HostedCluster/Cleanup/Order.antt =====
-- The order of the deletions: the HostedCluster, the NodePool once that is gone, and the secrets once
-- both are gone.
use dpf_hcp_bridge_operator.Base.{Bool, true, false, none, ◌≡◌, arith, ◌⊎◌, inl, inr}
use dpf_hcp_bridge_operator.Base.Result.{on_result, Result-cases}
use dpf_hcp_bridge_operator.Types.{DpfHcpBridge, NamespacedName, key_of}
use dpf_hcp_bridge_operator.Platform.{Client, Call, Trace, Action, pure, ◌>>=◌}
use dpf_hcp_bridge_operator.Platform.Only.{Only, only_rules, Only-Logged, Made, Only-Made}
use dpf_hcp_bridge_operator.HostedCluster.Cleanup.{
  delete_resource, cleanup_node_pool, cleanup_hosted_cluster,
}
use dpf_hcp_bridge_operator.HostedCluster.Cleanup.Gone.{
  HostedClusterGone, NodePoolGone, remove_hosted_cluster, remove_node_pool,
  remove_hosted_cluster-gone, remove_node_pool-gone,
}
use dpf_hcp_bridge_operator.HostedCluster.Cleanup.Calls.{
  cleanup_secrets-Only, cleanup_node_pool-Only,
}

abbrev pub deletes_node_pool : Call → Bool
deletes_node_pool (Call.delete_node_pool key r) = true
deletes_node_pool _ = false

abbrev pub deletes_secret : Call → Bool
deletes_secret (Call.delete_secret key r) = true
deletes_secret _ = false

abbrev touching_hosted_cluster : Call → Bool
touching_hosted_cluster (Call.get_hosted_cluster key r) = true
touching_hosted_cluster (Call.delete_hosted_cluster key r) = true
touching_hosted_cluster _ = false

abbrev touching_node_pool : Call → Bool
touching_node_pool (Call.get_node_pool key r) = true
touching_node_pool (Call.delete_node_pool key r) = true
touching_node_pool _ = false

pub HostedClusterGone-later :
    {allowed : Call → Bool} {A : Type 0} {n : Action A} (key : NamespacedName) (t : Trace)
    → Only allowed n
    → HostedClusterGone key t
    → HostedClusterGone key (n t).1
HostedClusterGone-later key t o (e, says, inl l) = (e, says, inl (Only-Logged _ t o l))
HostedClusterGone-later key t o (e, says, inr l) = (e, says, inr (Only-Logged _ t o l))

pub NodePoolGone-later :
    {allowed : Call → Bool} {A : Type 0} {n : Action A} (key : NamespacedName) (t : Trace)
    → Only allowed n
    → NodePoolGone key t
    → NodePoolGone key (n t).1
NodePoolGone-later key t o (e, says, inl l) = (e, says, inl (Only-Logged _ t o l))
NodePoolGone-later key t o (e, says, inr l) = (e, says, inr (Only-Logged _ t o l))

hosted_cluster_apart : (c : Call) → touching_hosted_cluster c ≡ true → deletes_node_pool c ≡ false
hosted_cluster_apart c h = ground arith

module _ (k : Client) where
  remove_hosted_cluster-Only :
      (cr : DpfHcpBridge) → Only touching_hosted_cluster (remove_hosted_cluster k cr)
  unfolding delete_resource
  remove_hosted_cluster-Only cr = search (only_rules) depth 16

  node_pool_complete :
      (cr : DpfHcpBridge) (h : Trace)
      → (cleanup_node_pool k cr h).0 ≡ none
      → NodePoolGone (key_of cr.meta) (cleanup_node_pool k cr h).1
  unfolding cleanup_node_pool ◌>>=◌ on_result pure
  node_pool_complete cr h complete = elim (Result-cases (remove_node_pool k cr h).0) [
    | inr (x, failed) ↦ cc (rw failed at complete)
    | inl (true, removed) ↦
        rw removed (
          NodePoolGone-later _ _ (cleanup_secrets-Only k cr) (remove_node_pool-gone k cr h removed))
    | inl (false, waits) ↦ cc (rw waits at complete)
  ]

  -- The cleanup of the HostedCluster reports no error only after the API said that the HostedCluster
  -- of the bridge's name is gone, and that the NodePool of that name is gone.
  pub cleanup_hosted_cluster_complete :
      (cr : DpfHcpBridge) (h : Trace)
      → (cleanup_hosted_cluster k cr h).0 ≡ none
      → HostedClusterGone (key_of cr.meta) (cleanup_hosted_cluster k cr h).1
        × NodePoolGone (key_of cr.meta) (cleanup_hosted_cluster k cr h).1
  unfolding cleanup_hosted_cluster ◌>>=◌ on_result pure
  cleanup_hosted_cluster_complete cr h complete =
      let t = (remove_hosted_cluster k cr h).1 in
      elim (Result-cases (remove_hosted_cluster k cr h).0) [
        | inr (x, failed) ↦ cc (rw failed at complete)
        | inl (true, removed) ↦ rw removed (
          HostedClusterGone-later _ t (cleanup_node_pool-Only k cr)
              (remove_hosted_cluster-gone k cr h removed),
          node_pool_complete cr t (rw removed at complete),
        )
        | inl (false, waits) ↦ cc (rw waits at complete)
      ]

  -- The deletion of a NodePool is called only after the API said that the HostedCluster of the
  -- bridge's name is gone.
  pub node_pool_deleted_after_hosted_cluster :
      (cr : DpfHcpBridge) (h : Trace)
      → Made deletes_node_pool (cleanup_hosted_cluster k cr h).1
      → Made deletes_node_pool h
        ⊎ HostedClusterGone (key_of cr.meta) (cleanup_hosted_cluster k cr h).1
  unfolding cleanup_hosted_cluster ◌>>=◌ on_result pure
  node_pool_deleted_after_hosted_cluster cr h made =
      let before = λ (p : Made deletes_node_pool (remove_hosted_cluster k cr h).1).
        Only-Made hosted_cluster_apart h (remove_hosted_cluster-Only cr) p in
      elim (Result-cases (remove_hosted_cluster k cr h).0) [
        | inr (x, failed) ↦ inl (before (rw failed at made))
        | inl (true, removed) ↦ rw removed (
            inr (
              HostedClusterGone-later _ _ (cleanup_node_pool-Only k cr)
                (remove_hosted_cluster-gone k cr h removed)))
        | inl (false, waits) ↦ inl (before (rw waits at made))
      ]
