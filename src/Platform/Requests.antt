-- ===== src/Platform/Requests.antt =====
-- The calls as actions. Each is answered by the client, and adds itself and its answer to the trace.
use dpf_hcp_bridge_operator.Base.{ℕ, String, List, Assoc}
use dpf_hcp_bridge_operator.Types.{
  NamespacedName, DpfHcpBridge, Secret, ConfigMap, Node, DpuCluster, HostedCluster, NodePool,
}
use dpf_hcp_bridge_operator.Platform.Replies.{Reply}
use dpf_hcp_bridge_operator.Platform.Calls.{Call, EventType}
use dpf_hcp_bridge_operator.Platform.World.{Client}
use dpf_hcp_bridge_operator.Platform.Actions.{Action, call}

-- `recorder.Event(cr, type, reason, message)`
abbrev pub event : EventType → String → String → Action (Unit {0})
event kind reason message = call (λ h. tt) (λ _. Call.event kind reason message)

module _ (k : Client) where
  abbrev pub now : Action ℕ
  now = call (λ h. k.now h) Call.now

  abbrev pub getenv : String → Action String
  getenv x = call (λ h. k.getenv h x) (Call.getenv x)

  abbrev pub read_random : ℕ → Action (Reply (List ℕ))
  read_random x = call (λ h. k.read_random h x) (Call.read_random x)

  abbrev pub get_bridge : NamespacedName → Action (Reply DpfHcpBridge)
  get_bridge x = call (λ h. k.get_bridge h x) (Call.get_bridge x)

  abbrev pub list_bridges : Action (Reply (List DpfHcpBridge))
  list_bridges = call (λ h. k.list_bridges h) Call.list_bridges

  abbrev pub update_bridge : DpfHcpBridge → Action (Reply DpfHcpBridge)
  update_bridge x = call (λ h. k.update_bridge h x) (Call.update_bridge x)

  abbrev pub update_bridge_status : DpfHcpBridge → Action (Reply DpfHcpBridge)
  update_bridge_status x = call (λ h. k.update_bridge_status h x) (Call.update_bridge_status x)

  abbrev pub get_dpu_cluster : NamespacedName → Action (Reply DpuCluster)
  get_dpu_cluster x = call (λ h. k.get_dpu_cluster h x) (Call.get_dpu_cluster x)

  abbrev pub update_dpu_cluster : DpuCluster → Action (Reply (Unit {0}))
  update_dpu_cluster x = call (λ h. k.update_dpu_cluster h x) (Call.update_dpu_cluster x)

  abbrev pub get_secret : NamespacedName → Action (Reply Secret)
  get_secret x = call (λ h. k.get_secret h x) (Call.get_secret x)

  abbrev pub list_secrets : Assoc String → Action (Reply (List Secret))
  list_secrets x = call (λ h. k.list_secrets h x) (Call.list_secrets x)

  abbrev pub create_secret : Secret → Action (Reply (Unit {0}))
  create_secret x = call (λ h. k.create_secret h x) (Call.create_secret x)

  abbrev pub update_secret : Secret → Action (Reply (Unit {0}))
  update_secret x = call (λ h. k.update_secret h x) (Call.update_secret x)

  abbrev pub delete_secret : NamespacedName → Action (Reply (Unit {0}))
  delete_secret x = call (λ h. k.delete_secret h x) (Call.delete_secret x)

  abbrev pub get_config_map : NamespacedName → Action (Reply ConfigMap)
  get_config_map x = call (λ h. k.get_config_map h x) (Call.get_config_map x)

  abbrev pub get_hosted_cluster : NamespacedName → Action (Reply HostedCluster)
  get_hosted_cluster x = call (λ h. k.get_hosted_cluster h x) (Call.get_hosted_cluster x)

  abbrev pub create_hosted_cluster : HostedCluster → Action (Reply (Unit {0}))
  create_hosted_cluster x = call (λ h. k.create_hosted_cluster h x) (Call.create_hosted_cluster x)

  abbrev pub delete_hosted_cluster : NamespacedName → Action (Reply (Unit {0}))
  delete_hosted_cluster x = call (λ h. k.delete_hosted_cluster h x) (Call.delete_hosted_cluster x)

  abbrev pub get_node_pool : NamespacedName → Action (Reply NodePool)
  get_node_pool x = call (λ h. k.get_node_pool h x) (Call.get_node_pool x)

  abbrev pub create_node_pool : NodePool → Action (Reply (Unit {0}))
  create_node_pool x = call (λ h. k.create_node_pool h x) (Call.create_node_pool x)

  abbrev pub delete_node_pool : NamespacedName → Action (Reply (Unit {0}))
  delete_node_pool x = call (λ h. k.delete_node_pool h x) (Call.delete_node_pool x)

  abbrev pub list_nodes : Action (Reply (List Node))
  list_nodes = call (λ h. k.list_nodes h) Call.list_nodes
