-- ===== src/HostedCluster/Services.antt =====
-- The services of a new HostedCluster, by what they are and not by how they are built.
use dpf_hcp_bridge_operator.Base.{
  String, true, false, none, some, List, [], ◌∷◌, ◌≡◌, refl, ◌⊎◌, inl, inr, All, map,
}
use dpf_hcp_bridge_operator.Types.{
  ServicePublishingStrategyMapping, load_balancer, route, node_port,
}
use dpf_hcp_bridge_operator.HostedCluster.Publishing.{
  text_lt, insert_mapping, sort_mappings, build_service_publishing_strategy,
}

-- Each service stands before the next one in the order of their names, so none stands twice.
abbrev pub Ascending : List ServicePublishingStrategyMapping → Type 0
Ascending [] = Unit {0}
Ascending (x ∷ []) = Unit {0}
Ascending (x ∷ y ∷ ys) = (text_lt x.service y.service ≡ true) × Ascending (y ∷ ys)

abbrev pub names : List ServicePublishingStrategyMapping → List String
names = map (λ x. x.service)

-- In NodePort mode every service is published at the address of the node.
abbrev pub OnNode : String → List ServicePublishingStrategyMapping → Type 0
OnNode address services =
    All (λ x. (x.strategy ≡ node_port) × (x.address ≡ some address)) services
    × (names services ≡ "APIServer" ∷ "Ignition" ∷ "Konnectivity" ∷ "OAuthServer" ∷ "OIDC" ∷ [])
    × Ascending services

-- In LoadBalancer mode the API server has a load balancer, every other service a route, and none an address.
abbrev pub OnLoadBalancer : List ServicePublishingStrategyMapping → Type 0
OnLoadBalancer services =
    All (λ x. x.address ≡ none) services
    × All (λ x. ((x.service ≡ "APIServer") × (x.strategy ≡ load_balancer)) ⊎ (x.strategy ≡ route))
        services
    × (names services ≡ "APIServer" ∷ "OAuthServer" ∷ "Konnectivity" ∷ "Ignition" ∷ [])

pub node_port-OnNode :
    (address : String) → OnNode address (build_service_publishing_strategy false address)
unfolding build_service_publishing_strategy sort_mappings insert_mapping
node_port-OnNode address = (
  ((refl, refl), ((refl, refl), ((refl, refl), ((refl, refl), ((refl, refl), tt))))),
  refl,
  (refl, (refl, (refl, (refl, tt)))),
)

pub load_balancer-OnLoadBalancer :
    (address : String) → OnLoadBalancer (build_service_publishing_strategy true address)
unfolding build_service_publishing_strategy
load_balancer-OnLoadBalancer address = (
  (refl, (refl, (refl, (refl, tt)))),
  (inl (refl, refl), (inr refl, (inr refl, (inr refl, tt)))),
  refl,
)
