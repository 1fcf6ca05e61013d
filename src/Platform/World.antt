-- ===== src/Platform/World.antt =====
-- The outside world, by its answers.
use dpf_hcp_bridge_operator.Base.{ℕ, String, List, Assoc}
use dpf_hcp_bridge_operator.Types.{
  NamespacedName, DpfHcpBridge, Secret, ConfigMap, Node, DpuCluster, HostedCluster, NodePool,
}
use dpf_hcp_bridge_operator.Platform.Replies.{Reply}
use dpf_hcp_bridge_operator.Platform.Calls.{Trace}

-- The environment answers each call from the trace of the calls before it. `update_bridge` and
-- `update_bridge_status` return the object that the server sends back.
pub record Client : Type 0 where
  pub now : Trace → ℕ
  pub getenv : Trace → String → String
  pub read_random : Trace → ℕ → Reply (List ℕ)
  pub get_bridge : Trace → NamespacedName → Reply DpfHcpBridge
  pub list_bridges : Trace → Reply (List DpfHcpBridge)
  pub update_bridge : Trace → DpfHcpBridge → Reply DpfHcpBridge
  pub update_bridge_status : Trace → DpfHcpBridge → Reply DpfHcpBridge
  pub get_dpu_cluster : Trace → NamespacedName → Reply DpuCluster
  pub update_dpu_cluster : Trace → DpuCluster → Reply (Unit {0})
  pub get_secret : Trace → NamespacedName → Reply Secret
  pub list_secrets : Trace → Assoc String → Reply (List Secret)
  pub create_secret : Trace → Secret → Reply (Unit {0})
  pub update_secret : Trace → Secret → Reply (Unit {0})
  pub delete_secret : Trace → NamespacedName → Reply (Unit {0})
  pub get_config_map : Trace → NamespacedName → Reply ConfigMap
  pub get_hosted_cluster : Trace → NamespacedName → Reply HostedCluster
  pub create_hosted_cluster : Trace → HostedCluster → Reply (Unit {0})
  pub delete_hosted_cluster : Trace → NamespacedName → Reply (Unit {0})
  pub get_node_pool : Trace → NamespacedName → Reply NodePool
  pub create_node_pool : Trace → NodePool → Reply (Unit {0})
  pub delete_node_pool : Trace → NamespacedName → Reply (Unit {0})
  pub list_nodes : Trace → Reply (List Node)
