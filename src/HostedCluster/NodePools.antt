-- ===== src/HostedCluster/NodePools.antt =====
-- internal/controller/hostedcluster/nodepool.go
use dpf_hcp_bridge_operator.Base.{some, [], ◌∷◌, if◌then◌else◌}
use dpf_hcp_bridge_operator.Base.Text.{sprintf}
use dpf_hcp_bridge_operator.Types.{DpfHcpBridge, NodePool, key_of}
use dpf_hcp_bridge_operator.Platform.{
  Client, Meta, Feature, wrapped, errorf, api, pure, ◌>>=◌, on_reply, done, fail, get_node_pool,
  create_node_pool,
}
use dpf_hcp_bridge_operator.HostedCluster.SecretManager.{new_meta}

unfoldable pub build_node_pool : DpfHcpBridge → NodePool
build_node_pool cr = record {
  meta = new_meta cr.meta.name cr.meta.namespace;
  spec = record {
    cluster_name = cr.meta.name;
    replicas = some 0;
    upgrade_type = "Replace";
    platform = "None";
    release_image = cr.spec.ocp_release_image;
  };
}

module _ (m : Meta) (k : Client) where
  unfoldable pub create_new_node_pool : Feature
  create_new_node_pool cr =
      let np = build_node_pool cr in
      on_reply (m.set_controller_reference cr.meta np.meta)
        (λ meta. do
          reply ← create_node_pool k (record np { meta = meta })
          on_reply reply (λ u. pure (cr, done))
              (λ e. pure (cr, fail (wrapped "failed to create NodePool" (api e)))))
        (λ e. pure (cr, fail (wrapped "failed to set owner reference on NodePool" (api e))))

  unfoldable pub create_node_pool_once : Feature
  create_node_pool_once cr = do
    reply ← get_node_pool k (key_of cr.meta)
    on_reply reply
        (λ existing.
          if m.is_controlled_by existing.meta cr.meta
          then pure (cr, done)
          else pure (
            cr,
            fail (
                errorf (
                  sprintf (
                    "nodePool " ∷ cr.meta.name ∷ " exists in " ∷ cr.meta.namespace
                    ∷ " but is owned by different DPFHCPBridge" ∷ []))),
          ))
        (λ e.
          if e.is_not_found
          then create_new_node_pool cr
          else pure (cr, fail (wrapped "failed to check existing NodePool" (api e))))
