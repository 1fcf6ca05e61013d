-- ===== src/Types/Bridge.antt =====
-- The DPFHCPBridge resource.
use dpf_hcp_bridge_operator.Base.{
  String, Bool, true, false, not, ◌&&◌, Option, List, Assoc, ◌==◌, if◌then◌else◌,
}
use dpf_hcp_bridge_operator.Types.Objects.{ObjectMeta, Condition, NamespacedName}

pub record DpuClusterReference : Type 0 where
  pub name : String
  pub namespace : String

pub record DpfHcpBridgeSpec : Type 0 where
  pub dpu_cluster_ref : DpuClusterReference
  pub base_domain : String
  pub ocp_release_image : String
  pub ssh_key_secret_ref : String
  pub pull_secret_ref : String
  pub etcd_storage_class : String
  pub control_plane_availability_policy : String
  pub virtual_ip : String
  pub node_selector : Assoc String

-- `phase_unset` is the empty text of a resource that was never reconciled.
pub data DpfHcpBridgePhase : Type 0 where
  phase_unset phase_pending phase_provisioning phase_ready phase_failed phase_deleting :
      DpfHcpBridgePhase

pub record ObjectReference : Type 0 where
  pub name : String
  pub namespace : String
  pub kind : String
  pub api_version : String

pub record DpfHcpBridgeStatus : Type 0 where
  pub phase : DpfHcpBridgePhase
  pub conditions : List Condition
  pub hosted_cluster_ref : Option ObjectReference
  pub kubeconfig_secret_ref : Option String
  pub bluefield_container_image : String

pub record DpfHcpBridge : Type 0 where
  pub meta : ObjectMeta
  pub spec : DpfHcpBridgeSpec
  pub status : DpfHcpBridgeStatus

-- `hyperv1.HighlyAvailable`, `hyperv1.SingleReplica`
abbrev pub highly_available : String
highly_available = "HighlyAvailable"

abbrev pub single_replica : String
single_replica = "SingleReplica"

unfoldable pub should_expose_through_load_balancer : DpfHcpBridge → Bool
should_expose_through_load_balancer b =
    if b.spec.control_plane_availability_policy == highly_available
    then true
    else if b.spec.control_plane_availability_policy == single_replica
        && not (b.spec.virtual_ip == "")
    then true
    else false

unfoldable pub is_vip_required : DpfHcpBridge → Bool
is_vip_required b = b.spec.control_plane_availability_policy == highly_available

-- `types.NamespacedName{Name: cr.Name, Namespace: cr.Namespace}`
abbrev pub key_of : ObjectMeta → NamespacedName
key_of o = record { namespace = o.namespace; name = o.name }

-- The bridge with other conditions.
abbrev pub with_conditions : DpfHcpBridge → List Condition → DpfHcpBridge
with_conditions cr cs = record cr { status = record cr.status { conditions = cs } }
