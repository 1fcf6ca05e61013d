-- ===== src/HostedCluster/Creations.antt =====
-- The creation of the objects of a bridge, by internal/controller/hostedcluster.
use dpf_hcp_bridge_operator.Base.{String, Bool, none, ◌≡◌, refl, is_some}
use dpf_hcp_bridge_operator.Types.{DpfHcpBridge, ObjectMeta, Secret}
use dpf_hcp_bridge_operator.Platform.{Client, Meta, Call, Trace, Reply, stops, Outcome}
use dpf_hcp_bridge_operator.Platform.Only.{Only, only_rules, Only-result}
use dpf_hcp_bridge_operator.HostedCluster.Held.{keeping, Stored, create-Stored}
use dpf_hcp_bridge_operator.HostedCluster.Manager.{
  create_new_hosted_cluster, create_with_address, detect_node_address,
}
use dpf_hcp_bridge_operator.HostedCluster.NodePools.{create_new_node_pool}
use dpf_hcp_bridge_operator.HostedCluster.SecretManager.{generate_new_key, create_owned_secret}

-- The feature returns an error, or a requeue.
abbrev pub stopped : DpfHcpBridge × Outcome → Bool
stopped r = stops r.1

-- The call that stores the secret with the metadata.
abbrev pub storing : Secret → ObjectMeta → Reply (Unit {0}) → Call
storing s meta r = Call.create_secret (record s { meta = meta }) r

module _ (m : Meta) (k : Client) where
  pub owned_secret-keeping :
      (what created : String) (s : Secret) (cr : DpfHcpBridge)
      → Only keeping (create_owned_secret m k what created s cr)
  unfolding create_owned_secret
  owned_secret-keeping what created s cr = search (only_rules) depth 16

  pub with_address-keeping :
      (address : String) (cr : DpfHcpBridge) → Only keeping (create_with_address m k address cr)
  unfolding create_with_address
  with_address-keeping address cr = search (only_rules) depth 16

  pub new_hosted_cluster-keeping :
      (cr : DpfHcpBridge) → Only keeping (create_new_hosted_cluster m k cr)
  unfolding create_new_hosted_cluster detect_node_address
  new_hosted_cluster-keeping cr = search (only_rules, Only-result, with_address-keeping) depth 20

  pub new_node_pool-keeping : (cr : DpfHcpBridge) → Only keeping (create_new_node_pool m k cr)
  unfolding create_new_node_pool
  new_node_pool-keeping cr = search (only_rules) depth 16

  pub new_key-keeping :
      (name : String) (cr : DpfHcpBridge) → Only keeping (generate_new_key m k name cr)
  unfolding generate_new_key create_owned_secret
  new_key-keeping name cr = search (only_rules) depth 16

  pub create_owned_secret-Stored :
      (what created : String) (s : Secret) (cr : DpfHcpBridge) (h : Trace)
      → (create_owned_secret m k what created s cr h).0 ≡ none
      → Stored m cr s.meta (storing s) (create_owned_secret m k what created s cr h).1
  unfolding create_owned_secret
  create_owned_secret-Stored what created s cr h complete =
      create-Stored m cr is_some s.meta (λ meta t. k.create_secret t (record s { meta = meta }))
        (storing s) none _ _ h (λ e. refl) (λ e. refl) (rw complete refl)
