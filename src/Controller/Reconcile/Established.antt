-- ===== src/Controller/Reconcile/Established.antt =====
-- What the provisioning of a Pending bridge has done once it goes on.
use dpf_hcp_bridge_operator.Base.{true, false, ◌≡◌}
use dpf_hcp_bridge_operator.Types.{DpfHcpBridge}
use dpf_hcp_bridge_operator.Platform.{Client, Meta, Trace, stops}
use dpf_hcp_bridge_operator.Platform.Only.{Only, only_rules, Keeps, Only-Keeps}
use dpf_hcp_bridge_operator.Platform.Ends.{Ends-if}
use dpf_hcp_bridge_operator.Report.Same.{Same, same_rules, Same-then, Same-pure, and_then-Same}
use dpf_hcp_bridge_operator.HostedCluster.Held.{keeping, Held-later, Stored-later}
use dpf_hcp_bridge_operator.HostedCluster.Creations.{
  new_hosted_cluster-keeping, new_node_pool-keeping, new_key-keeping,
}
use dpf_hcp_bridge_operator.HostedCluster.Copies.{
  copy_secrets-keeping, SecretsCopied, copy_secrets-Copied, Copied-later,
}
use dpf_hcp_bridge_operator.HostedCluster.Established.{
  HeldHostedCluster, create_or_update_hosted_cluster-Held, Created-later,
}
use dpf_hcp_bridge_operator.HostedCluster.KeyAndPool.{
  HeldKey, HeldNodePool, generate_etcd_encryption_key-Held, create_node_pool_once-Held,
  Generated-later,
}
use dpf_hcp_bridge_operator.HostedCluster.SecretManager.{
  copy_secrets, generate_new_key, generate_etcd_encryption_key,
}
use dpf_hcp_bridge_operator.HostedCluster.Manager.{
  create_with_address, create_new_hosted_cluster, create_or_update_hosted_cluster,
}
use dpf_hcp_bridge_operator.HostedCluster.NodePools.{create_node_pool_once}
use dpf_hcp_bridge_operator.Controller.Reconcile.{
  is_pending, secrets_feature, creation_feature, provisioning_features,
}

-- The bridge has all five objects.
pub record Established (m : Meta) (cr : DpfHcpBridge) (t : Trace) : Type 0 where
  pub secrets : SecretsCopied m cr t
  pub key : HeldKey m cr t
  pub hosted_cluster : HeldHostedCluster m cr t
  pub node_pool : HeldNodePool m cr t

pub Established-later :
    {m : Meta} {cr : DpfHcpBridge} {t u : Trace}
    → Keeps t u
    → Established m cr t
    → Established m cr u
Established-later keeps s = record {
  secrets = (Copied-later keeps s.secrets.0, Copied-later keeps s.secrets.1);
  key = Held-later keeps (Generated-later keeps) s.key;
  hosted_cluster = Held-later keeps (Created-later keeps) s.hosted_cluster;
  node_pool = Held-later keeps (Stored-later keeps) s.node_pool;
}

module _ (m : Meta) (k : Client) where
  copy_secrets-Same : (cr : DpfHcpBridge) → Same cr (copy_secrets m k cr)
  unfolding copy_secrets
  copy_secrets-Same cr = search (same_rules) depth 20

  key-Same : (cr : DpfHcpBridge) → Same cr (generate_etcd_encryption_key m k cr)
  unfolding generate_etcd_encryption_key generate_new_key
  key-Same cr = search (same_rules) depth 20

  hosted_cluster-Same : (cr : DpfHcpBridge) → Same cr (create_or_update_hosted_cluster m k cr)
  unfolding create_or_update_hosted_cluster create_new_hosted_cluster create_with_address
  hosted_cluster-Same cr = search (same_rules) depth 20

  key-keeping : (cr : DpfHcpBridge) → Only keeping (generate_etcd_encryption_key m k cr)
  unfolding generate_etcd_encryption_key
  key-keeping cr = search (only_rules, new_key-keeping) depth 20

  hosted_cluster-keeping :
      (cr : DpfHcpBridge) → Only keeping (create_or_update_hosted_cluster m k cr)
  unfolding create_or_update_hosted_cluster
  hosted_cluster-keeping cr = search (only_rules, new_hosted_cluster-keeping) depth 20

  node_pool-keeping : (cr : DpfHcpBridge) → Only keeping (create_node_pool_once m k cr)
  unfolding create_node_pool_once
  node_pool-keeping cr = search (only_rules, new_node_pool-keeping) depth 20

  creation-keeping : (cr : DpfHcpBridge) → Only keeping (creation_feature m k cr)
  unfolding creation_feature
  creation-keeping cr = search (only_rules, hosted_cluster-keeping, node_pool-keeping)

  secrets-keeping : (cr : DpfHcpBridge) → Only keeping (secrets_feature m k cr)
  unfolding secrets_feature
  secrets-keeping cr = search (only_rules, copy_secrets-keeping m k, key-keeping)

  pub provisioning-keeping : (cr : DpfHcpBridge) → Only keeping (provisioning_features m k cr)
  unfolding provisioning_features
  provisioning-keeping cr = search (only_rules, secrets-keeping, creation-keeping)

  secrets_feature-Same : (cr : DpfHcpBridge) → Same cr (secrets_feature m k cr)
  unfolding secrets_feature
  secrets_feature-Same cr =
      Ends-if _ _ _ (Same-then _ _ cr (copy_secrets-Same cr) (key-Same cr)) (Same-pure _)

  secrets_feature-Held :
      (cr : DpfHcpBridge) (h : Trace)
      → is_pending cr.status.phase ≡ true
      → stops (secrets_feature m k cr h).0.1 ≡ false
      → SecretsCopied m cr (secrets_feature m k cr h).1 × HeldKey m cr (secrets_feature m k cr h).1
  unfolding secrets_feature
  secrets_feature-Held cr h pending goes_on =
      let h' = (copy_secrets m k cr h).1 in
      let (copied, same) =
        and_then-Same (copy_secrets m k) (generate_etcd_encryption_key m k) cr h
          (copy_secrets-Same cr) (rw pending at goes_on) in
      let keeps = Only-Keeps h' (key-keeping cr) in
      let secrets = copy_secrets-Copied m k cr h copied in
      rw pending (
        rw same (
          (Copied-later keeps secrets.0, Copied-later keeps secrets.1),
          generate_etcd_encryption_key-Held m k cr h' (rw (pending, same) at goes_on),
        ))

  creation_feature-Held :
      (cr : DpfHcpBridge) (h : Trace)
      → is_pending cr.status.phase ≡ true
      → stops (creation_feature m k cr h).0.1 ≡ false
      → HeldHostedCluster m cr (creation_feature m k cr h).1
        × HeldNodePool m cr (creation_feature m k cr h).1
  unfolding creation_feature
  creation_feature-Held cr h pending goes_on =
      let h' = (create_or_update_hosted_cluster m k cr h).1 in
      let (created, same) =
        and_then-Same (create_or_update_hosted_cluster m k) (create_node_pool_once m k) cr h
          (hosted_cluster-Same cr) (rw pending at goes_on) in
      let keeps = Only-Keeps h' (node_pool-keeping cr) in
      rw pending (
        rw same (
          Held-later keeps (Created-later keeps)
              (create_or_update_hosted_cluster-Held m k cr h created),
          create_node_pool_once-Held m k cr h' (rw (pending, same) at goes_on),
        ))

  -- The provisioning of a Pending bridge that goes on has copied both secrets, and the bridge has its
  -- etcd encryption key, its HostedCluster and its NodePool: each was found under the control of
  -- the bridge, or was missing and the API has stored it.
  pub provisioning_features-Established :
      (cr : DpfHcpBridge) (h : Trace)
      → is_pending cr.status.phase ≡ true
      → stops (provisioning_features m k cr h).0.1 ≡ false
      → Established m cr (provisioning_features m k cr h).1
  unfolding provisioning_features
  provisioning_features-Established cr h pending goes_on =
      let h' = (secrets_feature m k cr h).1 in
      let (prepared, same) =
        and_then-Same (secrets_feature m k) (creation_feature m k) cr h (secrets_feature-Same cr)
          goes_on in
      let keeps = Only-Keeps h' (creation-keeping cr) in
      let (secrets, key) = secrets_feature-Held cr h pending prepared in
      let (hosted_cluster, node_pool) = creation_feature-Held cr h' pending (rw same at goes_on) in
      rw same (record {
        secrets = (Copied-later keeps secrets.0, Copied-later keeps secrets.1);
        key = Held-later keeps (Generated-later keeps) key;
        hosted_cluster = hosted_cluster;
        node_pool = node_pool;
      })
