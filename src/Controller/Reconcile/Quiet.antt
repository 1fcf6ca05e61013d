-- ===== src/Controller/Reconcile/Quiet.antt =====
-- The calls that the features of `Reconcile` can make: which of them create a HostedCluster or a
-- NodePool, and which cannot.
use dpf_hcp_bridge_operator.Base.{Bool, true, false, not, ◌≡◌, refl, arith, List, ◌∷◌, []}
use dpf_hcp_bridge_operator.Types.{DpfHcpBridge, HostedCluster}
use dpf_hcp_bridge_operator.Platform.{Client, Meta, Call, Action}
use dpf_hcp_bridge_operator.Platform.Only.{
  Only, only_rules, Only-weaken, Only-result, Only-then, Only-pure, Only-bind,
}
use dpf_hcp_bridge_operator.Report.{condition_now, persist_status}
use dpf_hcp_bridge_operator.Report.Laws.{set_condition-Only}
use dpf_hcp_bridge_operator.DpuCluster.Outcome.{validating, validate_dpu_cluster-Only}
use dpf_hcp_bridge_operator.DpuCluster.{validate_dpu_cluster}
use dpf_hcp_bridge_operator.Secrets.{validate_secrets}
use dpf_hcp_bridge_operator.Secrets.Outcome.{reading_secrets, validate_secrets-Only}
use dpf_hcp_bridge_operator.BlueField.{resolve_bluefield_image}
use dpf_hcp_bridge_operator.BlueField.Resolved.{resolving, resolve_bluefield_image-Only}
use dpf_hcp_bridge_operator.HostedCluster.SecretManager.{
  create_owned_secret, copy_pull_secret, copy_ssh_key, copy_secrets, generate_etcd_encryption_key,
  generate_new_key,
}
use dpf_hcp_bridge_operator.HostedCluster.Manager.{
  create_or_update_hosted_cluster, create_new_hosted_cluster, create_with_address,
  detect_node_address,
}
use dpf_hcp_bridge_operator.HostedCluster.NodePools.{create_node_pool_once, create_new_node_pool}
use dpf_hcp_bridge_operator.HostedCluster.StatusSync.{
  ConditionMapping, mirror_condition, mirror_conditions, sync_status_from_hosted_cluster,
}
use dpf_hcp_bridge_operator.Kubeconfig.Calls.{injecting, inject_kubeconfig-Only}
use dpf_hcp_bridge_operator.Controller.Ready.{compute_ready_condition-Only}
use dpf_hcp_bridge_operator.Controller.Reconcile.{
  image_feature, enabled_image_feature, disable_image_validation, secrets_feature, creation_feature,
  provisioning_features, validation_features, set_ref_step, final_step, injection_feature,
  closing_features,
}

-- The call creates a HostedCluster or a NodePool.
abbrev pub provisions : Call → Bool
provisions (Call.create_hosted_cluster hc r) = true
provisions (Call.create_node_pool np r) = true
provisions _ = false

abbrev pub quiet : Call → Bool
quiet c = not (provisions c)

abbrev pub anything : Call → Bool
anything c = true

pub Only-anything :
    {allowed : Call → Bool} {A : Type 0} {n : Action A} → Only allowed n → Only anything n
Only-anything o = Only-weaken (λ c h. refl) o

validating→quiet : (c : Call) → validating c ≡ true → quiet c ≡ true
validating→quiet c h = ground arith

reading_secrets→quiet : (c : Call) → reading_secrets c ≡ true → quiet c ≡ true
reading_secrets→quiet c h = ground arith

resolving→quiet : (c : Call) → resolving c ≡ true → quiet c ≡ true
resolving→quiet c h = ground arith

injecting→quiet : (c : Call) → injecting c ≡ true → quiet c ≡ true
injecting→quiet c h = ground arith

module _ (m : Meta) (k : Client) where
  dpu-quiet : (cr : DpfHcpBridge) → Only quiet (validate_dpu_cluster m k cr)
  dpu-quiet cr = Only-weaken validating→quiet (validate_dpu_cluster-Only m k cr)

  resolve-quiet : (cr : DpfHcpBridge) → Only quiet (resolve_bluefield_image m k cr)
  resolve-quiet cr = Only-weaken resolving→quiet (resolve_bluefield_image-Only m k cr)

  pub image_feature-quiet : (cr : DpfHcpBridge) → Only quiet (image_feature m k cr)
  unfolding image_feature enabled_image_feature disable_image_validation condition_now
      persist_status
  image_feature-quiet cr = search (only_rules, resolve-quiet, set_condition-Only) depth 14

  secrets-quiet : (cr : DpfHcpBridge) → Only quiet (validate_secrets m k cr)
  secrets-quiet cr = Only-weaken reading_secrets→quiet (validate_secrets-Only m k cr)

  pub validation_features-quiet : (cr : DpfHcpBridge) → Only quiet (validation_features m k cr)
  unfolding validation_features
  validation_features-quiet cr =
      search (only_rules, dpu-quiet, secrets-quiet, image_feature-quiet) depth 12

  create_owned_secret-quiet :
      (what created : _) (secret : _) (cr : DpfHcpBridge)
      → Only quiet (create_owned_secret m k what created secret cr)
  unfolding create_owned_secret
  create_owned_secret-quiet what created secret cr = search (only_rules) depth 12

  pub secrets_feature-quiet : (cr : DpfHcpBridge) → Only quiet (secrets_feature m k cr)
  unfolding secrets_feature copy_secrets copy_pull_secret copy_ssh_key generate_etcd_encryption_key
      generate_new_key
  secrets_feature-quiet cr = search (only_rules, create_owned_secret-quiet) depth 20

  create_with_address-anything :
      (address : _) (cr : DpfHcpBridge) → Only anything (create_with_address m k address cr)
  unfolding create_with_address
  create_with_address-anything address cr = search (only_rules) depth 12

  detect-anything : Only anything (detect_node_address k)
  unfolding detect_node_address
  detect-anything = search (only_rules) depth 12

  hosted_cluster-anything :
      (cr : DpfHcpBridge) → Only anything (create_or_update_hosted_cluster m k cr)
  unfolding create_or_update_hosted_cluster create_new_hosted_cluster
  hosted_cluster-anything cr =
      search (only_rules, Only-result, create_with_address-anything, detect-anything) depth 16

  node_pool-anything : (cr : DpfHcpBridge) → Only anything (create_node_pool_once m k cr)
  unfolding create_node_pool_once create_new_node_pool
  node_pool-anything cr = search (only_rules) depth 16

  -- Creating the HostedCluster and the NodePool.
  pub creation_feature-anything : (cr : DpfHcpBridge) → Only anything (creation_feature m k cr)
  unfolding creation_feature
  creation_feature-anything cr =
      search (only_rules, hosted_cluster-anything, node_pool-anything) depth 12

  pub provisioning_features-anything :
      (cr : DpfHcpBridge) → Only anything (provisioning_features m k cr)
  unfolding provisioning_features
  provisioning_features-anything cr =
      Only-then _ _ cr (Only-anything (secrets_feature-quiet cr)) creation_feature-anything

  mirror_condition-quiet :
      (hc : HostedCluster) (mapping : ConditionMapping) (cr : DpfHcpBridge)
      → Only quiet (mirror_condition m k hc mapping cr)
  unfolding mirror_condition
  mirror_condition-quiet hc mapping cr = search (only_rules, set_condition-Only) depth 12

  mirror_conditions-quiet :
      (hc : HostedCluster) (order : List ConditionMapping) (cr : DpfHcpBridge)
      → Only quiet (mirror_conditions m k hc order cr)
  unfolding mirror_conditions
  mirror_conditions-quiet hc [] cr = Only-pure cr
  mirror_conditions-quiet hc (mapping ∷ rest) cr =
      Only-bind _ _ (mirror_condition-quiet hc mapping cr) (mirror_conditions-quiet hc rest)

  sync-quiet :
      (order : List ConditionMapping) (cr : DpfHcpBridge)
      → Only quiet (sync_status_from_hosted_cluster m k order cr)
  unfolding sync_status_from_hosted_cluster
  sync-quiet order cr = search (only_rules, mirror_conditions-quiet) depth 16

  set_ref-quiet : (cr : DpfHcpBridge) → Only quiet (set_ref_step m k cr)
  unfolding set_ref_step
  set_ref-quiet cr = search (only_rules) depth 12

  final-quiet : (cr : DpfHcpBridge) → Only quiet (final_step m k cr)
  unfolding final_step persist_status
  final-quiet cr = search (only_rules, compute_ready_condition-Only) depth 12

  injection-quiet : (cr : DpfHcpBridge) → Only quiet (injection_feature m k cr)
  unfolding injection_feature
  injection-quiet cr = search (only_rules, Only-weaken injecting→quiet, inject_kubeconfig-Only)

  pub closing_features-quiet :
      (order : List ConditionMapping) (cr : DpfHcpBridge)
      → Only quiet (closing_features m k order cr)
  unfolding closing_features
  closing_features-quiet order cr =
      search (only_rules, sync-quiet, set_ref-quiet, final-quiet, injection-quiet) depth 12
