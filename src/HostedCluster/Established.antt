-- ===== src/HostedCluster/Established.antt =====
-- What the creation of the HostedCluster has done where it goes on.
use dpf_hcp_bridge_operator.Base.{
  String, true, false, ◌≡◌, refl, ◌⊎◌, inl, inr, Bool-cases, List, [], ◌∷◌,
}
use dpf_hcp_bridge_operator.Base.Result.{success, Result-cases, on_result}
use dpf_hcp_bridge_operator.Types.{
  DpfHcpBridge, HostedCluster, HostedClusterSpec, ServicePublishingStrategyMapping, Node, key_of,
  should_expose_through_load_balancer,
}
use dpf_hcp_bridge_operator.Platform.{
  Client, Meta, Call, Trace, ok, Reply-cases, ◌>>=◌, call, on_reply, on_option, pure, stops, done,
}
use dpf_hcp_bridge_operator.Platform.Only.{Logged, Keeps, Only-Keeps}
use dpf_hcp_bridge_operator.HostedCluster.Addresses.{Preferred, detect_node_address-Preferred}
use dpf_hcp_bridge_operator.HostedCluster.Services.{
  OnNode, OnLoadBalancer, node_port-OnNode, load_balancer-OnLoadBalancer,
}
use dpf_hcp_bridge_operator.HostedCluster.Held.{
  Stored, Held, create-Stored, ensure-Held, Stored-later,
}
use dpf_hcp_bridge_operator.HostedCluster.Creations.{
  stopped, with_address-keeping, new_hosted_cluster-keeping,
}
use dpf_hcp_bridge_operator.HostedCluster.SecretManager.{
  new_meta, etcd_key_name, pull_secret_name, ssh_key_name,
}
use dpf_hcp_bridge_operator.HostedCluster.Manager.{
  build_hosted_cluster, detect_node_address, create_with_address, create_new_hosted_cluster,
  create_or_update_hosted_cluster,
}
use dpf_hcp_bridge_operator.HostedCluster.Publishing.{build_service_publishing_strategy}

-- Where the services of a new HostedCluster are published: at the virtual IP, or at the preferred address
-- of the first node of the cluster.
abbrev pub Published : DpfHcpBridge → List ServicePublishingStrategyMapping → Trace → Type 0
Published cr services t =
    ((should_expose_through_load_balancer cr ≡ true) × OnLoadBalancer services)
    ⊎ ((should_expose_through_load_balancer cr ≡ false)
        × ((address : String) × (node : Node) × (rest : List Node) × Logged
              (Call.list_nodes (ok (node ∷ rest))) t
            × Preferred address node.addresses
            × OnNode address services))

Published-later :
    (cr : DpfHcpBridge) (services : List ServicePublishingStrategyMapping) {t u : Trace}
    → Keeps t u
    → Published cr services t
    → Published cr services u
Published-later cr services keeps (inl p) = inl p
Published-later cr services keeps
      (inr (hidden, (address, node, rest, listed, preferred, on_node))) =
    inr (hidden, (address, node, rest, keeps.call _ listed, preferred, on_node))

-- A HostedCluster that is new: it names the secrets of the bridge, and its release and domain.
pub record Created (m : Meta) (cr : DpfHcpBridge) (t : Trace) : Type 0 where
  pub spec : HostedClusterSpec
  pub pull_secret : spec.pull_secret ≡ pull_secret_name cr
  pub ssh_key : spec.ssh_key ≡ ssh_key_name cr
  pub active_key : spec.active_key ≡ etcd_key_name cr
  pub release_image : spec.release_image ≡ cr.spec.ocp_release_image
  pub base_domain : spec.base_domain ≡ cr.spec.base_domain
  pub published : Published cr spec.services t
  pub stored :
      Stored m cr
        (new_meta cr.meta.name cr.meta.namespace)
        (λ meta r.
          Call.create_hosted_cluster (record { meta = meta; spec = spec; conditions = [] }) r)
        t

-- The HostedCluster of a bridge.
abbrev pub HeldHostedCluster : Meta → DpfHcpBridge → Trace → Type 0
HeldHostedCluster m cr t =
    Held m cr (λ (x : HostedCluster). x.meta) (λ r. Call.get_hosted_cluster (key_of cr.meta) r)
      (Created m cr) t

pub Created-later :
    {m : Meta} {cr : DpfHcpBridge} {t u : Trace} → Keeps t u → Created m cr t → Created m cr u
Created-later {cr = cr} keeps c = record {
  spec = c.spec;
  pull_secret = c.pull_secret;
  ssh_key = c.ssh_key;
  active_key = c.active_key;
  release_image = c.release_image;
  base_domain = c.base_domain;
  published = Published-later cr c.spec.services keeps c.published;
  stored = Stored-later keeps c.stored;
}

module _ (m : Meta) (k : Client) where
  create_with_address-Created :
      (address : String) (cr : DpfHcpBridge) (h : Trace)
      → Published cr
          (build_service_publishing_strategy (should_expose_through_load_balancer cr) address)
          h
      → stopped (create_with_address m k address cr h).0 ≡ false
      → Created m cr (create_with_address m k address cr h).1
  unfolding create_with_address build_hosted_cluster
  create_with_address-Created address cr h published goes_on = record {
    spec = (build_hosted_cluster m cr address).spec;
    pull_secret = refl;
    ssh_key = refl;
    active_key = refl;
    release_image = refl;
    base_domain = refl;
    published = Published-later _ _ (Only-Keeps h (with_address-keeping m k address cr)) published;
    stored =
        create-Stored m cr stopped (new_meta cr.meta.name cr.meta.namespace)
          (λ meta t.
            k.create_hosted_cluster t (record (build_hosted_cluster m cr address) { meta = meta }))
          _ (cr, done) _ _ h (λ e. refl) (λ e. refl) goes_on;
  }

  detect_node_address-Listed :
      (address : String) (h : Trace)
      → (detect_node_address k h).0 ≡ success address
      → (node : Node) × (rest : List Node) × Logged
          (Call.list_nodes (ok (node ∷ rest)))
          (detect_node_address k h).1
        × Preferred address node.addresses
  unfolding detect_node_address ◌>>=◌ call on_reply on_option pure
  detect_node_address-Listed address h detected = elim (Reply-cases (k.list_nodes h)) [
    | inr (e, failed) ↦ cc (rw failed at detected)
    | inl ([], listed) ↦ cc (rw listed at detected)
    | inl (node ∷ rest, listed) ↦ (
      node,
      rest,
      rw listed (inl refl),
      (detect_node_address-Preferred k h node rest address listed).0 detected,
    )
  ]

  create_new_hosted_cluster-Created :
      (cr : DpfHcpBridge) (h : Trace)
      → stopped (create_new_hosted_cluster m k cr h).0 ≡ false
      → Created m cr (create_new_hosted_cluster m k cr h).1
  unfolding create_new_hosted_cluster ◌>>=◌ on_result pure
  create_new_hosted_cluster-Created cr h goes_on =
      elim (Bool-cases (should_expose_through_load_balancer cr)) [
        | inl exposed ↦ rw exposed (
            create_with_address-Created "" cr h
              (inl (exposed, rw exposed (load_balancer-OnLoadBalancer ""))) (rw exposed at goes_on))
        | inr hidden ↦ elim (Result-cases (detect_node_address k h).0) [
          | inr (x, failed) ↦ cc (simp (hidden, failed) at goes_on)
          | inl (address, detected) ↦
              let h' = (detect_node_address k h).1 in
              let (node, rest, listed, preferred) = detect_node_address-Listed address h detected in
              simp (hidden, detected)
                (create_with_address-Created address cr h'
                  (inr (
                    hidden,
                    (address, node, rest, listed, preferred, rw hidden (node_port-OnNode address)),
                  ))
                  (simp (hidden, detected) at goes_on))
        ]
      ]

  pub create_or_update_hosted_cluster-Held :
      (cr : DpfHcpBridge) (h : Trace)
      → stops (create_or_update_hosted_cluster m k cr h).0.1 ≡ false
      → HeldHostedCluster m cr (create_or_update_hosted_cluster m k cr h).1
  unfolding create_or_update_hosted_cluster
  create_or_update_hosted_cluster-Held cr h goes_on =
      ensure-Held m cr stopped (λ t. k.get_hosted_cluster t (key_of cr.meta)) _ (λ o. o.meta)
        (Created m cr) (cr, done) _ _ (create_new_hosted_cluster m k cr) h (λ o. refl) (λ e. refl)
        (new_hosted_cluster-keeping m k cr) (λ t on. create_new_hosted_cluster-Created cr t on)
        goes_on
