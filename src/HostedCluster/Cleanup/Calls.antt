-- ===== src/HostedCluster/Cleanup/Calls.antt =====
-- The calls that the deletion of the HostedCluster, of the NodePool and of the secrets can make.
use dpf_hcp_bridge_operator.Base.{String, Bool, true, false, none, some, List, [], ◌∷◌, ◌≡◌, arith}
use dpf_hcp_bridge_operator.Types.{DpfHcpBridge}
use dpf_hcp_bridge_operator.Platform.{Client, Call}
use dpf_hcp_bridge_operator.Platform.Only.{
  Only, only_rules, Only-result, Only-bind, Only-pure, Only-option, Only-weaken,
}
use dpf_hcp_bridge_operator.HostedCluster.Cleanup.{
  delete_resource, delete_secret_by_name, delete_all, delete_secrets, cleanup_secrets,
  cleanup_node_pool, cleanup_hosted_cluster,
}

-- The calls of each of the three steps.
abbrev pub deleting_secrets : Call → Bool
deleting_secrets (Call.event t r s) = true
deleting_secrets (Call.get_secret key r) = true
deleting_secrets (Call.delete_secret key r) = true
deleting_secrets _ = false

abbrev pub deleting_node_pool : Call → Bool
deleting_node_pool (Call.get_node_pool key r) = true
deleting_node_pool (Call.delete_node_pool key r) = true
deleting_node_pool c = deleting_secrets c

abbrev pub deleting_hosted_cluster : Call → Bool
deleting_hosted_cluster (Call.get_hosted_cluster key r) = true
deleting_hosted_cluster (Call.delete_hosted_cluster key r) = true
deleting_hosted_cluster c = deleting_node_pool c

secrets→node_pool : (c : Call) → deleting_secrets c ≡ true → deleting_node_pool c ≡ true
secrets→node_pool c h = ground arith

node_pool→hosted_cluster :
    (c : Call) → deleting_node_pool c ≡ true → deleting_hosted_cluster c ≡ true
node_pool→hosted_cluster c h = ground arith

module _ (k : Client) where
  delete_all-Only :
      (namespace : String) (names : List String)
      → Only deleting_secrets (delete_all k namespace names)
  unfolding delete_all delete_secret_by_name
  delete_all-Only namespace [] = Only-pure none
  delete_all-Only namespace (x ∷ rest) =
      Only-bind _ _ (search (only_rules) depth 14) (λ failed.
        Only-option failed _ _ (λ x. Only-pure (some x)) (delete_all-Only namespace rest))

  pub cleanup_secrets-Only : (cr : DpfHcpBridge) → Only deleting_secrets (cleanup_secrets k cr)
  unfolding cleanup_secrets delete_secrets
  cleanup_secrets-Only cr = search (only_rules, delete_all-Only) depth 12

  pub cleanup_node_pool-Only :
      (cr : DpfHcpBridge) → Only deleting_node_pool (cleanup_node_pool k cr)
  unfolding cleanup_node_pool delete_resource
  cleanup_node_pool-Only cr =
      search (only_rules, Only-result, Only-weaken secrets→node_pool, cleanup_secrets-Only) depth 16

  pub cleanup_hosted_cluster-Only :
      (cr : DpfHcpBridge) → Only deleting_hosted_cluster (cleanup_hosted_cluster k cr)
  unfolding cleanup_hosted_cluster delete_resource
  cleanup_hosted_cluster-Only cr =
      search (only_rules, Only-result, Only-weaken node_pool→hosted_cluster, cleanup_node_pool-Only)
        depth 16
