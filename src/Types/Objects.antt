-- ===== src/Types/Objects.antt =====
-- The objects that the operator reads and writes beside its own resource.
use dpf_hcp_bridge_operator.Base.{ℕ, String, Option, List, Assoc}

pub record NamespacedName : Type 0 where
  pub namespace : String
  pub name : String

-- `metav1.OwnerReference`
pub record OwnerReference : Type 0 where
  pub kind : String
  pub name : String
  pub uid : String
  pub controller : Option String

-- The part of `metav1.ObjectMeta` that the operator reads or sets.
pub record ObjectMeta : Type 0 where
  pub name : String
  pub namespace : String
  pub uid : String
  pub generation : ℕ
  pub deletion_timestamp : Option ℕ
  pub finalizers : List String
  pub labels : Assoc String
  pub owner_references : List OwnerReference

pub data ConditionStatus : Type 0 where
  condition_true condition_false condition_unknown : ConditionStatus

-- `metav1.Condition`. The field `Type` is `kind` here.
pub record Condition : Type 0 where
  pub kind : String
  pub status : ConditionStatus
  pub reason : String
  pub message : String
  pub last_transition_time : ℕ
  pub observed_generation : ℕ

pub data SecretType : Type 0 where
  opaque docker_config_json other_secret : SecretType

pub record Secret : Type 0 where
  pub meta : ObjectMeta
  pub kind : SecretType
  pub content : Assoc (List ℕ)

pub record ConfigMap : Type 0 where
  pub meta : ObjectMeta
  pub content : Assoc String

pub record DpuCluster : Type 0 where
  pub meta : ObjectMeta
  pub kind : String
  pub kubeconfig : String

pub data NodeAddressType : Type 0 where
  external_dns external_ip internal_ip internal_dns hostname : NodeAddressType

pub record NodeAddress : Type 0 where
  pub kind : NodeAddressType
  pub address : String

pub record Node : Type 0 where
  pub name : String
  pub addresses : List NodeAddress

pub data PublishingStrategyType : Type 0 where
  load_balancer route node_port : PublishingStrategyType

-- `hyperv1.ServicePublishingStrategyMapping`; `address` is that of its `NodePort` field.
pub record ServicePublishingStrategyMapping : Type 0 where
  pub service : String
  pub strategy : PublishingStrategyType
  pub address : Option String

-- The fields of `hyperv1.HostedClusterSpec` that the operator sets.
pub record HostedClusterSpec : Type 0 where
  pub release_image : String
  pub pull_secret : String
  pub ssh_key : String
  pub base_domain : String
  pub etcd_size : String
  pub etcd_storage_class : Option String
  pub network_type : String
  pub service_network : List String
  pub cluster_network : List String
  pub machine_network : List String
  pub platform : String
  pub controller_availability_policy : String
  pub infra_id : String
  pub secret_encryption : String
  pub active_key : String
  pub services : List ServicePublishingStrategyMapping
  pub disabled_capabilities : List String
  pub node_selector : Assoc String

pub record HostedCluster : Type 0 where
  pub meta : ObjectMeta
  pub spec : HostedClusterSpec
  pub conditions : List Condition

pub record NodePoolSpec : Type 0 where
  pub cluster_name : String
  pub replicas : Option ℕ
  pub upgrade_type : String
  pub platform : String
  pub release_image : String

pub record NodePool : Type 0 where
  pub meta : ObjectMeta
  pub spec : NodePoolSpec
