-- ===== src/Platform/Calls.antt =====
-- The calls that leave the operator with their answers, as the entries of a trace, newest first.
use dpf_hcp_bridge_operator.Base.{ℕ, String, List, Assoc}
use dpf_hcp_bridge_operator.Types.{
  NamespacedName, DpfHcpBridge, Secret, ConfigMap, Node, DpuCluster, HostedCluster, NodePool,
}
use dpf_hcp_bridge_operator.Platform.Replies.{Reply}

pub data EventType : Type 0 where
  normal warning : EventType

pub data Call : Type 0 where
  now : ℕ → Call
  getenv : String → String → Call
  read_random : ℕ → Reply (List ℕ) → Call
  event : EventType → String → String → Call
  get_bridge : NamespacedName → Reply DpfHcpBridge → Call
  list_bridges : Reply (List DpfHcpBridge) → Call
  update_bridge : DpfHcpBridge → Reply DpfHcpBridge → Call
  update_bridge_status : DpfHcpBridge → Reply DpfHcpBridge → Call
  get_dpu_cluster : NamespacedName → Reply DpuCluster → Call
  update_dpu_cluster : DpuCluster → Reply (Unit {0}) → Call
  get_secret : NamespacedName → Reply Secret → Call
  list_secrets : Assoc String → Reply (List Secret) → Call
  create_secret : Secret → Reply (Unit {0}) → Call
  update_secret : Secret → Reply (Unit {0}) → Call
  delete_secret : NamespacedName → Reply (Unit {0}) → Call
  get_config_map : NamespacedName → Reply ConfigMap → Call
  get_hosted_cluster : NamespacedName → Reply HostedCluster → Call
  create_hosted_cluster : HostedCluster → Reply (Unit {0}) → Call
  delete_hosted_cluster : NamespacedName → Reply (Unit {0}) → Call
  get_node_pool : NamespacedName → Reply NodePool → Call
  create_node_pool : NodePool → Reply (Unit {0}) → Call
  delete_node_pool : NamespacedName → Reply (Unit {0}) → Call
  list_nodes : Reply (List Node) → Call

abbrev pub Trace : Type 0
Trace = List Call
