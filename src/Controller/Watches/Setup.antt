-- ===== src/Controller/Watches/Setup.antt =====
-- The predicates of the watches, and `SetupWithManager`.
use dpf_hcp_bridge_operator.Base.{String, Bool, true, false, not, Option, none, some, List}
use dpf_hcp_bridge_operator.Types.{ConfigMap, DpuCluster, Secret, HostedCluster, NamespacedName}
use dpf_hcp_bridge_operator.Platform.{Client, Action}
use dpf_hcp_bridge_operator.Kubeconfig.Watch.{
  WatchedObject, is_hosted_cluster_kubeconfig_secret, find_bridge_for_kubeconfig_secret,
}
use dpf_hcp_bridge_operator.Controller.Watches.{
  is_image_config_map, conditions_equal, config_map_to_requests, dpu_cluster_to_requests,
  secret_to_requests,
}

-- `predicate.Funcs`: a test for each kind of event, of which the last may be left out.
pub record Predicate (A : Type 0) : Type 0 where
  pub create_func : A → Bool
  -- The old and the new object.
  pub update_func : A → A → Bool
  pub delete_func : A → Bool
  pub generic_func : Option (A → Bool)

unfoldable pub config_map_predicate : Predicate ConfigMap
config_map_predicate = record {
  create_func = λ o. is_image_config_map o.meta;
  update_func = λ old new. is_image_config_map new.meta;
  delete_func = λ o. is_image_config_map o.meta;
  generic_func = none;
}

unfoldable pub dpu_cluster_predicate : Predicate DpuCluster
dpu_cluster_predicate = record {
  create_func = λ o. true;
  update_func = λ old new. true;
  delete_func = λ o. true;
  generic_func = none;
}

unfoldable pub secret_predicate : Predicate Secret
secret_predicate = record {
  create_func = λ o. true;
  update_func = λ old new. true;
  delete_func = λ o. true;
  generic_func = none;
}

unfoldable pub hosted_cluster_predicate : Predicate HostedCluster
hosted_cluster_predicate = record {
  create_func = λ o. true;
  update_func = λ old new. not (conditions_equal old.conditions new.conditions);
  delete_func = λ o. true;
  generic_func = none;
}

unfoldable pub is_hosted_cluster_kubeconfig_secret_predicate : Predicate WatchedObject
is_hosted_cluster_kubeconfig_secret_predicate = record {
  create_func = is_hosted_cluster_kubeconfig_secret;
  update_func = λ old new. is_hosted_cluster_kubeconfig_secret new;
  delete_func = is_hosted_cluster_kubeconfig_secret;
  generic_func = some (λ o. false);
}

-- A watch: the events that pass, and the requests for an object of such an event.
pub record Watch (A : Type 0) : Type 0 where
  pub predicate : Predicate A
  pub requests : A → Action (List NamespacedName)

-- The controller reconciles the bridges themselves, and what these watches request.
pub record Setup : Type 0 where
  pub name : String
  pub config_maps : Watch ConfigMap
  pub dpu_clusters : Watch DpuCluster
  pub secrets : Watch Secret
  pub hosted_clusters : Watch HostedCluster
  pub kubeconfig_secrets : Watch WatchedObject

module _ (k : Client) where
  unfoldable pub kubeconfig_secret_to_requests : WatchedObject → Action (List NamespacedName)
  kubeconfig_secret_to_requests o = find_bridge_for_kubeconfig_secret k o

  -- `EnqueueRequestForOwner` of the client's library stands as an argument.
  unfoldable pub setup_with_manager : (HostedCluster → Action (List NamespacedName)) → Setup
  setup_with_manager enqueue_request_for_owner = record {
    name = "dpfhcpbridge";
    config_maps = record {
      predicate = config_map_predicate;
      requests = λ o. config_map_to_requests k o.meta;
    };
    dpu_clusters = record {
      predicate = dpu_cluster_predicate;
      requests = λ o. dpu_cluster_to_requests k o.meta;
    };
    secrets = record { predicate = secret_predicate; requests = λ o. secret_to_requests k o.meta };
    hosted_clusters = record {
      predicate = hosted_cluster_predicate;
      requests = enqueue_request_for_owner;
    };
    kubeconfig_secrets = record {
      predicate = is_hosted_cluster_kubeconfig_secret_predicate;
      requests = kubeconfig_secret_to_requests;
    };
  }
