-- ===== src/HostedCluster/Manager.antt =====
-- internal/controller/hostedcluster/hostedcluster.go
use dpf_hcp_bridge_operator.Base.{
  String, Bool, true, false, Option, none, some, List, [], ◌∷◌, Assoc, ◌==◌, if◌then◌else◌,
}
use dpf_hcp_bridge_operator.Base.Text.{sprintf, append}
use dpf_hcp_bridge_operator.Base.Result.{Result, success, failure, on_result}
use dpf_hcp_bridge_operator.Types.{
  DpfHcpBridge, HostedCluster, NodeAddress, NodeAddressType, external_dns, external_ip, internal_ip,
  key_of, should_expose_through_load_balancer,
}
use dpf_hcp_bridge_operator.Platform.{
  Client, Meta, Action, Feature, Failure, wrapped, errorf, api, pure, ◌>>=◌, on_reply, on_option,
  done, fail, get_hosted_cluster, create_hosted_cluster, list_nodes,
}
use dpf_hcp_bridge_operator.HostedCluster.SecretManager.{
  new_meta, pull_secret_name, ssh_key_name, etcd_key_name,
}
use dpf_hcp_bridge_operator.HostedCluster.Publishing.{build_service_publishing_strategy}

unfoldable pub get_node_selector : DpfHcpBridge → Assoc String
get_node_selector cr = elim cr.spec.node_selector [
  | [] ↦ ("node-role.kubernetes.io/control-plane", "") ∷ []
  | entry ∷ rest ↦ entry ∷ rest
]

unfoldable pub build_hosted_cluster : Meta → DpfHcpBridge → String → HostedCluster
build_hosted_cluster m cr node_address = record {
  meta = new_meta cr.meta.name cr.meta.namespace;
  spec = record {
    release_image = cr.spec.ocp_release_image;
    pull_secret = pull_secret_name cr;
    ssh_key = ssh_key_name cr;
    base_domain = cr.spec.base_domain;
    etcd_size = "8Gi";
    etcd_storage_class =
        if cr.spec.etcd_storage_class == "" then none else some cr.spec.etcd_storage_class;
    network_type = "Other";
    service_network = "172.31.0.0/16" ∷ [];
    cluster_network = "10.132.0.0/14" ∷ [];
    machine_network = [];
    platform = "None";
    controller_availability_policy = cr.spec.control_plane_availability_policy;
    infra_id = m.infra_id cr.meta.name;
    secret_encryption = "aescbc";
    active_key = etcd_key_name cr;
    services =
        build_service_publishing_strategy (should_expose_through_load_balancer cr) node_address;
    disabled_capabilities =
        "ImageRegistry" ∷ "Insights" ∷ "Console" ∷ "openshift-samples" ∷ "Ingress" ∷ "NodeTuning"
        ∷ [];
    node_selector = get_node_selector cr;
  };
  conditions = [];
}

abbrev pub same_kind : NodeAddressType → NodeAddressType → Bool
same_kind NodeAddressType.external_dns NodeAddressType.external_dns = true
same_kind NodeAddressType.external_ip NodeAddressType.external_ip = true
same_kind NodeAddressType.internal_ip NodeAddressType.internal_ip = true
same_kind NodeAddressType.internal_dns NodeAddressType.internal_dns = true
same_kind NodeAddressType.hostname NodeAddressType.hostname = true
same_kind _ _ = false

-- The inner loop: the first address of the type.
unfoldable pub address_of_type : NodeAddressType → List NodeAddress → Option String
address_of_type kind [] = none
address_of_type kind (addr ∷ rest) =
    if same_kind addr.kind kind then some addr.address else address_of_type kind rest

-- The outer loop: the first type that has an address.
unfoldable pub first_address : List NodeAddressType → List NodeAddress → Option String
first_address [] addresses = none
first_address (kind ∷ rest) addresses = elim (address_of_type kind addresses) [
  | some a ↦ some a
  | none ↦ first_address rest addresses
]

abbrev pub address_types : List NodeAddressType
address_types = external_dns ∷ external_ip ∷ internal_ip ∷ []

unfoldable pub detect_node_address : Client → Action (Result Failure String)
detect_node_address k = do
  reply ← list_nodes k
  pure (
      on_reply reply
        (λ nodes. elim nodes [
          | [] ↦ failure (errorf "no nodes found in cluster")
          | node ∷ rest ↦
              on_option (first_address address_types node.addresses) success
                (failure (errorf (append "no valid address found on node " node.name)))
        ])
        (λ e. failure (wrapped "failed to list nodes" (api e))))

module _ (m : Meta) (k : Client) where
  -- The end of the creation, with the address of the node.
  unfoldable pub create_with_address : String → Feature
  create_with_address node_address cr =
      let hc = build_hosted_cluster m cr node_address in
      on_reply (m.set_controller_reference cr.meta hc.meta)
        (λ meta. do
          reply ← create_hosted_cluster k (record hc { meta = meta })
          on_reply reply (λ u. pure (cr, done))
              (λ e. pure (cr, fail (wrapped "failed to create HostedCluster" (api e)))))
        (λ e. pure (cr, fail (wrapped "failed to set owner reference on HostedCluster" (api e))))

  unfoldable pub create_new_hosted_cluster : Feature
  create_new_hosted_cluster cr =
      if should_expose_through_load_balancer cr then create_with_address "" cr else (do
        detected ← detect_node_address k
        on_result detected (λ address. create_with_address address cr)
            (λ x. pure (cr, fail (wrapped "failed to detect node address" x))))

  unfoldable pub create_or_update_hosted_cluster : Feature
  create_or_update_hosted_cluster cr = do
    reply ← get_hosted_cluster k (key_of cr.meta)
    on_reply reply
        (λ existing.
          if m.is_controlled_by existing.meta cr.meta
          then pure (cr, done)
          else pure (
            cr,
            fail (
                errorf (
                  sprintf (
                    "hostedCluster " ∷ cr.meta.name ∷ " exists in " ∷ cr.meta.namespace
                    ∷ " but is owned by different DPFHCPBridge" ∷ []))),
          ))
        (λ e.
          if e.is_not_found
          then create_new_hosted_cluster cr
          else pure (cr, fail (wrapped "failed to check existing HostedCluster" (api e))))
