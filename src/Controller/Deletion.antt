-- ===== src/Controller/Deletion.antt =====
-- `handleDeletion` of internal/controller/dpfhcpbridge_controller.go, and the handlers that cmd/main.go
-- registers.
pub mod Laws
pub mod Finish
pub mod Completes
pub mod Runs
use dpf_hcp_bridge_operator.Base.{String, List, [], not, if◌then◌else◌}
use dpf_hcp_bridge_operator.Types.{DpfHcpBridge}
use dpf_hcp_bridge_operator.Platform.{
  Client, Meta, Feature, pure, ◌>>=◌, on_reply, on_option, done, fail, api, stops, update_bridge,
  update_bridge_status,
}
use dpf_hcp_bridge_operator.Finalizer.{CleanupHandler, register_handler, handle_finalizer_cleanup}
use dpf_hcp_bridge_operator.HostedCluster.Cleanup.{hosted_cluster_handler}
use dpf_hcp_bridge_operator.Kubeconfig.Cleanup.{kubeconfig_handler}

abbrev pub finalizer_name : String
finalizer_name = "dpfhcpbridge.provisioning.dpu.hcp.io/finalizer"

-- The kubeconfig handler stands before the HostedCluster handler.
unfoldable pub registered_handlers : Client → List CleanupHandler
unfolding register_handler
registered_handlers k =
    register_handler (register_handler [] (kubeconfig_handler k)) (hosted_cluster_handler k)

abbrev pub without_finalizer : Meta → DpfHcpBridge → DpfHcpBridge
without_finalizer m cr = record cr { meta = m.remove_finalizer cr.meta finalizer_name }

module _ (m : Meta) (k : Client) (handlers : List CleanupHandler) where
  unfoldable pub remove_finalizer_step : Feature
  remove_finalizer_step cr = do
    reply ← update_bridge k (without_finalizer m cr)
    on_reply reply (λ stored. pure (stored, done))
        (λ e. pure (without_finalizer m cr, fail (api e)))

  -- The part with the finalizer present.
  unfoldable pub run_cleanup : Feature
  run_cleanup cr = do
    result ← handle_finalizer_cleanup handlers cr
    if stops result then pure (cr, result) else remove_finalizer_step cr

  unfoldable pub handle_deletion : Feature
  handle_deletion cr = do
    reply ← update_bridge_status k cr
    on_reply reply
        (λ stored.
          if not (m.contains_finalizer stored.meta finalizer_name)
          then pure (stored, done)
          else run_cleanup stored)
        (λ e. pure (cr, fail (api e)))
