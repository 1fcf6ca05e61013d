-- ===== src/HostedCluster/StatusSync.antt =====
-- internal/controller/hostedcluster/status.go
pub mod Laws
pub mod Synced
use dpf_hcp_bridge_operator.Base.{String, Bool, Option, none, some, List, [], ◌∷◌, if◌then◌else◌}
use dpf_hcp_bridge_operator.Types.{
  DpfHcpBridge, HostedCluster, Condition, NamespacedName, hosted_cluster_available,
  hosted_cluster_progressing, hosted_cluster_degraded, valid_release_info, valid_release_image,
  ignition_endpoint_available, ignition_server_valid_release_info,
}
use dpf_hcp_bridge_operator.Platform.{
  Client, Meta, Action, Feature, api, pure, ◌>>=◌, on_reply, on_option, done, fail,
  get_hosted_cluster,
}
use dpf_hcp_bridge_operator.Report.{set_condition}

-- A condition type of the HostedCluster, and the type of the bridge that mirrors it.
pub record ConditionMapping : Type 0 where
  pub source : String
  pub target : String

-- The map literal. Go iterates over it in an arbitrary order.
abbrev pub condition_mappings : List ConditionMapping
condition_mappings =
    record { source = "Available"; target = hosted_cluster_available }
    ∷ record { source = "Progressing"; target = hosted_cluster_progressing }
    ∷ record { source = "Degraded"; target = hosted_cluster_degraded }
    ∷ record { source = "ValidReleaseInfo"; target = valid_release_info }
    ∷ record { source = "ValidReleaseImage"; target = valid_release_image }
    ∷ record { source = "IgnitionEndpointAvailable"; target = ignition_endpoint_available }
    ∷ record {
      source = "IgnitionServerValidReleaseInfo";
      target = ignition_server_valid_release_info;
    }
    ∷ []

module _ (m : Meta) (k : Client) where
  -- One round of the loop.
  unfoldable pub mirror_condition :
      HostedCluster → ConditionMapping → DpfHcpBridge → Action DpfHcpBridge
  mirror_condition hc mapping cr =
      on_option (m.find_status_condition hc.conditions mapping.source)
        (λ hc_cond. do
          (cr', _) ←
              set_condition m k
                (record {
                  kind = mapping.target;
                  status = hc_cond.status;
                  reason = hc_cond.reason;
                  message = hc_cond.message;
                  last_transition_time = 0;
                  observed_generation = cr.meta.generation;
                })
                cr
          pure cr')
        (pure cr)

  -- The loop, over the mappings in the order in which the map gives them.
  unfoldable pub mirror_conditions :
      HostedCluster → List ConditionMapping → DpfHcpBridge → Action DpfHcpBridge
  mirror_conditions hc [] cr = pure cr
  mirror_conditions hc (mapping ∷ rest) cr = do
    cr' ← mirror_condition hc mapping cr
    mirror_conditions hc rest cr'

  unfoldable pub sync_status_from_hosted_cluster : List ConditionMapping → Feature
  sync_status_from_hosted_cluster order cr =
      on_option cr.status.hosted_cluster_ref
        (λ ref. do
          reply ← get_hosted_cluster k (record { namespace = ref.namespace; name = ref.name })
          on_reply reply
              (λ hc.
                if (elim hc.conditions [ [] ↦ Bool.true | c ∷ cs ↦ Bool.false ])
                then pure (cr, done)
                else (do cr' ← mirror_conditions hc order cr; pure (cr', done)))
              (λ e.
                if e.is_not_found
                then pure (cr, done)
                else if e.is_no_match
                then pure (cr, done)
                else pure (cr, fail (api e))))
        (pure (cr, done))
