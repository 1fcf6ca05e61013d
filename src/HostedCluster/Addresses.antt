-- ===== src/HostedCluster/Addresses.antt =====
-- Which address of the node the services of NodePort mode get.
use dpf_hcp_bridge_operator.Base.{
  String, true, none, some, List, [], ◌∷◌, ◌≡◌, ◌≢◌, ◌↔◌, ◌⊎◌, arith, All,
}
use dpf_hcp_bridge_operator.Base.Result.{success}
use dpf_hcp_bridge_operator.Types.{
  Node, NodeAddress, NodeAddressType, external_dns, external_ip, internal_ip,
}
use dpf_hcp_bridge_operator.Platform.{Client, Trace, ok, pure, ◌>>=◌, call, on_reply, on_option}
use dpf_hcp_bridge_operator.HostedCluster.Manager.{
  same_kind, address_of_type, first_address, address_types, detect_node_address,
}

-- No address of the type stands in the list.
abbrev pub Lacks : NodeAddressType → List NodeAddress → Type 0
Lacks kind addresses = All (λ x. x.kind ≢ kind) addresses

-- The first address of the type is this one.
abbrev pub First : NodeAddressType → String → List NodeAddress → Type 0
First kind a [] = ⊥
First kind a (x ∷ xs) = ((x.kind ≡ kind) × (x.address ≡ a)) ⊎ ((x.kind ≢ kind) × First kind a xs)

same_kind_iff : (a b : NodeAddressType) → (same_kind a b ≡ true) ↔ (a ≡ b)
same_kind_iff a b = ground arith

address_of_type-some :
    (kind : NodeAddressType) (a : String) (addresses : List NodeAddress)
    → (address_of_type kind addresses ≡ some a) ↔ First kind a addresses
unfolding address_of_type
address_of_type-some kind a [] = ground arith
address_of_type-some kind a (x ∷ xs) =
    ground (arith, same_kind_iff x.kind kind, address_of_type-some kind a xs)

address_of_type-none :
    (kind : NodeAddressType) (addresses : List NodeAddress)
    → (address_of_type kind addresses ≡ none) ↔ Lacks kind addresses
unfolding address_of_type
address_of_type-none kind [] = ground arith
address_of_type-none kind (x ∷ xs) =
    ground (arith, same_kind_iff x.kind kind, address_of_type-none kind xs)

-- The preferred address of a node.
abbrev pub Preferred : String → List NodeAddress → Type 0
Preferred a addresses =
    First external_dns a addresses
    ⊎ ((Lacks external_dns addresses × First external_ip a addresses)
        ⊎ (Lacks external_dns addresses
            × Lacks external_ip addresses
            × First internal_ip a addresses))

first_address-Preferred :
    (a : String) (addresses : List NodeAddress)
    → (first_address address_types addresses ≡ some a) ↔ Preferred a addresses
unfolding first_address
first_address-Preferred a addresses = ground (
  arith,
  address_of_type-some external_dns a addresses,
  address_of_type-none external_dns addresses,
  address_of_type-some external_ip a addresses,
  address_of_type-none external_ip addresses,
  address_of_type-some internal_ip a addresses,
)

module _ (k : Client) where
  -- Where the nodes are listed and there is one: the detection returns an address exactly if it is the
  -- first external DNS name of the first node, or, where it has none, its first external IP, or, where
  -- it has neither, its first internal IP.
  pub detect_node_address-Preferred :
      (h : Trace) (node : Node) (rest : List Node) (a : String)
      → k.list_nodes h ≡ ok (node ∷ rest)
      → ((detect_node_address k h).0 ≡ success a) ↔ Preferred a node.addresses
  unfolding detect_node_address ◌>>=◌ call on_reply on_option pure
  detect_node_address-Preferred h node rest a listed =
      rw listed (ground (arith, first_address-Preferred a node.addresses))
