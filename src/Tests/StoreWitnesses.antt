-- ===== src/Tests/StoreWitnesses.antt =====
-- The theorems on the injection against a store, each applied at a concrete input.
use dpf_hcp_bridge_operator.Base.{[], refl}
use dpf_hcp_bridge_operator.Platform.Only.{Grows, same}
use dpf_hcp_bridge_operator.Platform.Server.{replay}
use dpf_hcp_bridge_operator.Kubeconfig.Injector.{inject_kubeconfig}
use dpf_hcp_bridge_operator.Kubeconfig.Verdict.{Reports, inject_kubeconfig-Reports}
use dpf_hcp_bridge_operator.Kubeconfig.Delivery.Steps.{quiet}
use dpf_hcp_bridge_operator.Kubeconfig.Delivery.Readiness.{IsDelivered}
use dpf_hcp_bridge_operator.Kubeconfig.Delivery.Converges.{inject_kubeconfig_converges}
use dpf_hcp_bridge_operator.Kubeconfig.Delivery.Idle.{inject_kubeconfig_idle}
use dpf_hcp_bridge_operator.Kubeconfig.Delivery.Stuck.{
  lost_key, FailsQuietly, inject_kubeconfig-lost_key,
}
use dpf_hcp_bridge_operator.Tests.Fixtures.{helpers, helpers_laws}
use dpf_hcp_bridge_operator.Tests.Server.{
  serving, serving-Served, before-Keyed, settled-Keyed, keyless-Keyed, remote, remote_ref, bytes,
  before, before-Ready, settled, settled-IsDelivered, keyless, keyless_copy, keyless-source,
  keyless-copy, keyless-Names,
}

inject_kubeconfig_converges_example :
    IsDelivered
      (replay before
        (inject_kubeconfig helpers
          (serving before)
          remote
          (inject_kubeconfig helpers (serving before) remote []).1).1)
      remote
      bytes
inject_kubeconfig_converges_example =
    inject_kubeconfig_converges helpers (serving before) before (serving-Served before) before-Keyed
      remote remote remote_ref remote_ref bytes []
      (inject_kubeconfig helpers (serving before) remote []).1 refl refl refl refl before-Ready same

inject_kubeconfig_idle_example :
    Grows quiet [] (inject_kubeconfig helpers (serving settled) remote []).1
inject_kubeconfig_idle_example =
    inject_kubeconfig_idle helpers (serving settled) settled (serving-Served settled) settled-Keyed
      remote remote_ref bytes [] refl settled-IsDelivered

inject_kubeconfig-lost_key_example :
    FailsQuietly lost_key [] (inject_kubeconfig helpers (serving keyless) remote [])
inject_kubeconfig-lost_key_example =
    inject_kubeconfig-lost_key helpers (serving keyless) keyless (serving-Served keyless)
      keyless-Keyed remote remote_ref bytes keyless_copy [] refl keyless-source keyless-copy refl
      keyless-Names

inject_kubeconfig-Reports_example :
    Reports helpers (inject_kubeconfig helpers (serving keyless) remote [])
inject_kubeconfig-Reports_example =
    inject_kubeconfig-Reports (serving keyless) helpers_laws remote remote_ref [] refl
