-- ===== src/Kubeconfig/Delivery/Idle.antt =====
-- The injection of a kubeconfig that is delivered already.
use dpf_hcp_bridge_operator.Base.{ℕ, some, List, ◌≡◌}
use dpf_hcp_bridge_operator.Types.{DpfHcpBridge, ObjectReference}
use dpf_hcp_bridge_operator.Platform.{Client, Meta, Trace}
use dpf_hcp_bridge_operator.Platform.Only.{Grows, Grows-trans}
use dpf_hcp_bridge_operator.Platform.Server.{Store, Served, Keyed, replay}
use dpf_hcp_bridge_operator.Kubeconfig.Injector.{
  kubeconfig_secret_name, check_injection_state, inject_kubeconfig,
}
use dpf_hcp_bridge_operator.Kubeconfig.Delivery.Steps.{quiet, injected-quiet}
use dpf_hcp_bridge_operator.Kubeconfig.Delivery.Reads.{check_state-quiet, detect-quiet, drift-quiet}
use dpf_hcp_bridge_operator.Kubeconfig.Delivery.Reported.{inject_kubeconfig-delivered}
use dpf_hcp_bridge_operator.Kubeconfig.Delivery.Readiness.{IsDelivered}
use dpf_hcp_bridge_operator.Kubeconfig.Delivery.Converges.{checked}

module _ (m : Meta) (k : Client) (s0 : Store) (served : Served s0 k) (keyed : Keyed s0) where
  pub checked-quiet :
      (b : DpfHcpBridge) (h : Trace) → Grows quiet h (checked m k s0 served keyed b h)
  checked-quiet b h =
      Grows-trans ((check_state-quiet k b).at h)
        ((detect-quiet k b).at (check_injection_state k b h).1)

  -- Against a server that answers from its store, whose objects stand under their own keys at first:
  -- where the HostedCluster is referenced and the kubeconfig is delivered, an injection creates,
  -- updates or deletes no secret, and updates no DPUCluster.
  pub inject_kubeconfig_idle :
      (b : DpfHcpBridge) (ref : ObjectReference) (bytes : List ℕ) (h : Trace)
      → b.status.hosted_cluster_ref ≡ some ref
      → IsDelivered (replay s0 h) b bytes
      → Grows quiet h (inject_kubeconfig m k b h).1
  inject_kubeconfig_idle b ref bytes h referenced delivered =
      rw (inject_kubeconfig-delivered m k s0 served keyed b ref bytes h referenced delivered) (
        Grows-trans (checked-quiet b h) (
          Grows-trans ((drift-quiet k b (kubeconfig_secret_name b)).at _)
            ((injected-quiet m k b).at _)))
