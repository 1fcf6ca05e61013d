-- ===== src/Controller/Reconcile/Unwritten.antt =====
-- The validations write no secret and no DPUCluster.
use dpf_hcp_bridge_operator.Base.{true, ◌≡◌, arith}
use dpf_hcp_bridge_operator.Types.{DpfHcpBridge}
use dpf_hcp_bridge_operator.Platform.{Client, Meta, Call}
use dpf_hcp_bridge_operator.Platform.Only.{Only, only_rules, Only-weaken}
use dpf_hcp_bridge_operator.Report.{condition_now, persist_status}
use dpf_hcp_bridge_operator.Report.Laws.{set_condition-Only}
use dpf_hcp_bridge_operator.DpuCluster.Outcome.{validating, validate_dpu_cluster-Only}
use dpf_hcp_bridge_operator.Secrets.Outcome.{reading_secrets, validate_secrets-Only}
use dpf_hcp_bridge_operator.BlueField.Resolved.{resolving, resolve_bluefield_image-Only}
use dpf_hcp_bridge_operator.Kubeconfig.Delivery.Steps.{quiet}
use dpf_hcp_bridge_operator.Controller.Reconcile.{
  disable_image_validation, enabled_image_feature, image_feature, validation_features,
}

pub validating→quiet : (c : Call) → validating c ≡ true → quiet c ≡ true
validating→quiet c h = ground arith

pub reading_secrets→quiet : (c : Call) → reading_secrets c ≡ true → quiet c ≡ true
reading_secrets→quiet c h = ground arith

pub resolving→quiet : (c : Call) → resolving c ≡ true → quiet c ≡ true
resolving→quiet c h = ground arith

pub validation-quiet :
    (m : Meta) (k : Client) (cr : DpfHcpBridge) → Only quiet (validation_features m k cr)
unfolding validation_features image_feature enabled_image_feature disable_image_validation
    condition_now persist_status
validation-quiet m k cr =
    search
      (
        only_rules,
        λ (b : DpfHcpBridge). Only-weaken validating→quiet (validate_dpu_cluster-Only m k b),
        λ (b : DpfHcpBridge). Only-weaken reading_secrets→quiet (validate_secrets-Only m k b),
        λ (b : DpfHcpBridge). Only-weaken resolving→quiet (resolve_bluefield_image-Only m k b),
        set_condition-Only,
      )
      depth 20
