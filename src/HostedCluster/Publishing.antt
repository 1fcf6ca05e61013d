-- ===== src/HostedCluster/Publishing.antt =====
-- internal/controller/hostedcluster/servicepublishing.go
use Prim.Native.Nat.{Ordering}
use Prim.Native.String.{compare}
use dpf_hcp_bridge_operator.Base.{
  String, Bool, true, false, Option, none, some, List, [], ◌∷◌, map, if◌then◌else◌,
}
use dpf_hcp_bridge_operator.Types.{
  ServicePublishingStrategyMapping, PublishingStrategyType, load_balancer, route, node_port,
}

-- `a < b` on texts
abbrev pub text_lt : String → String → Bool
text_lt a b = elim (compare a b) [ Ordering.lt ↦ true | _ ↦ false ]

abbrev pub mapping :
    String → PublishingStrategyType → Option String → ServicePublishingStrategyMapping
mapping service strategy address = record {
  service = service;
  strategy = strategy;
  address = address;
}

-- `sort.Slice` by the name of the service. The names are distinct, so every sort gives this list.
unfoldable pub insert_mapping :
    ServicePublishingStrategyMapping
    → List ServicePublishingStrategyMapping
    → List ServicePublishingStrategyMapping
insert_mapping x [] = x ∷ []
insert_mapping x (y ∷ ys) =
    let rest = insert_mapping x ys in if text_lt y.service x.service then y ∷ rest else x ∷ y ∷ ys

unfoldable pub sort_mappings :
    List ServicePublishingStrategyMapping → List ServicePublishingStrategyMapping
unfolding insert_mapping
sort_mappings [] = []
sort_mappings (x ∷ xs) = insert_mapping x (sort_mappings xs)

-- The services of NodePort mode, in the order in which the code lists them.
abbrev pub services : List String
services = "APIServer" ∷ "OAuthServer" ∷ "OIDC" ∷ "Konnectivity" ∷ "Ignition" ∷ []

unfoldable pub build_service_publishing_strategy :
    Bool → String → List ServicePublishingStrategyMapping
unfolding sort_mappings
build_service_publishing_strategy expose_through_load_balancer node_address =
    if expose_through_load_balancer
    then mapping "APIServer" load_balancer none
      ∷ mapping "OAuthServer" route none
      ∷ mapping "Konnectivity" route none
      ∷ mapping "Ignition" route none
      ∷ []
    else sort_mappings (map (λ s. mapping s node_port (some node_address)) services)
