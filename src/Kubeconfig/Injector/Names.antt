-- ===== src/Kubeconfig/Injector/Names.antt =====
-- The names of the injection, and small helpers.
use dpf_hcp_bridge_operator.Base.{ℕ, String, Bool, true, false, ◌&&◌, some, List, [], ◌∷◌, nat_eq}
use dpf_hcp_bridge_operator.Base.Text.{append}
use dpf_hcp_bridge_operator.Types.{DpfHcpBridge, NamespacedName, ConditionStatus, condition_false}
use dpf_hcp_bridge_operator.Platform.{EventType, normal, warning}

abbrev pub kubeconfig_secret_suffix : String
kubeconfig_secret_suffix = "-admin-kubeconfig"

abbrev pub label_owned_by : String
label_owned_by = "dpf-hcp-bridge-operator/owned-by"

abbrev pub label_namespace : String
label_namespace = "dpf-hcp-bridge-operator/namespace"

unfoldable pub kubeconfig_secret_name : DpfHcpBridge → String
kubeconfig_secret_name bridge = append bridge.meta.name kubeconfig_secret_suffix

-- The secret in the namespace of the HostedCluster, and the copy beside the DPUCluster.
abbrev pub source_key : DpfHcpBridge → String → NamespacedName
source_key bridge name = record { namespace = bridge.meta.namespace; name = name }

abbrev pub dest_key : DpfHcpBridge → String → NamespacedName
dest_key bridge name = record { namespace = bridge.spec.dpu_cluster_ref.namespace; name = name }

abbrev pub cluster_key : DpfHcpBridge → NamespacedName
cluster_key bridge = record {
  namespace = bridge.spec.dpu_cluster_ref.namespace;
  name = bridge.spec.dpu_cluster_ref.name;
}

-- `bytes.Equal`
unfoldable pub bytes_equal : List ℕ → List ℕ → Bool
bytes_equal [] [] = true
bytes_equal (x ∷ xs) (y ∷ ys) = nat_eq x y && bytes_equal xs ys
bytes_equal _ _ = false

abbrev pub warning_if_false : ConditionStatus → EventType
warning_if_false condition_false = warning
warning_if_false _ = normal

abbrev pub with_secret_ref : DpfHcpBridge → String → DpfHcpBridge
with_secret_ref bridge name = record bridge {
  status = record bridge.status { kubeconfig_secret_ref = some name };
}
