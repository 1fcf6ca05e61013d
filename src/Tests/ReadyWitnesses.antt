-- ===== src/Tests/ReadyWitnesses.antt =====
-- The reconciliation that makes a bridge Ready, against a concrete server.
use dpf_hcp_bridge_operator.Base.{
  String, false, some, [], ◌∷◌, ◌≡◌, refl, ap, sym, some_apart, inl, inr,
}
use dpf_hcp_bridge_operator.Base.Text.{append}
use dpf_hcp_bridge_operator.Types.{HostedCluster, Secret, key_of, opaque, condition_true}
use dpf_hcp_bridge_operator.Platform.{Client, Call, Trace, ok, done, stops}
use dpf_hcp_bridge_operator.Platform.Server.{Store, Served, Keyed, put, put-KeyedMap, replay, apply}
use dpf_hcp_bridge_operator.Report.Laws.{StatusEcho}
use dpf_hcp_bridge_operator.HostedCluster.StatusSync.{condition_mappings}
use dpf_hcp_bridge_operator.HostedCluster.StatusSync.Laws.{Distinct}
use dpf_hcp_bridge_operator.HostedCluster.StatusSync.Synced.{Available, is_target}
use dpf_hcp_bridge_operator.Kubeconfig.Injector.{kubeconfig_secret_name}
use dpf_hcp_bridge_operator.Kubeconfig.Delivery.Readiness.{Ready}
use dpf_hcp_bridge_operator.Controller.Phase.{
  any_failed, is_failed, is_met, update_phase_from_conditions,
}
use dpf_hcp_bridge_operator.Controller.PhaseLaws.{IsFailing}
use dpf_hcp_bridge_operator.Controller.Reconcile.{validation_features, reconcile}
use dpf_hcp_bridge_operator.Controller.Reconcile.Accepted.{Acceptable, validation_features-Accepted}
use dpf_hcp_bridge_operator.Controller.Reconcile.Unwritten.{reading_secrets→quiet}
use dpf_hcp_bridge_operator.Kubeconfig.Delivery.Steps.{replay-quiet}
use dpf_hcp_bridge_operator.Platform.Only.{Grows-trans, Grows-weaken}
use dpf_hcp_bridge_operator.Controller.Reconcile.Readiness.{Leaves, ReadyLast}
use dpf_hcp_bridge_operator.Controller.Reconcile.Completed.{reconcile-ReadyLast}
use dpf_hcp_bridge_operator.Tests.Fixtures.{helpers, helpers_laws, named, request, hosted}
use dpf_hcp_bridge_operator.Tests.ReconcileWitnesses.{
  images, image, release_image_given, release_image-version, image_given, image-tagged,
}
use dpf_hcp_bridge_operator.Tests.Server.{
  serving, serving-Served, remote, remote_ref, bytes, bare, bare-Keyed, secret_in, cluster_naming,
}

abbrev team_secret : String → String → Secret
team_secret name key = record { meta = named name; kind = opaque; content = (key, 1 ∷ []) ∷ [] }

-- The store before an injection, with the two secrets that the bridge references.
abbrev complete : Store
complete = record bare {
  secrets =
      put (record { namespace = "team"; name = "ssh" }) (some (team_secret "ssh" "id_rsa.pub"))
        (put (record { namespace = "team"; name = "pull" })
          (some (team_secret "pull" ".dockerconfigjson")) bare.secrets);
}

complete-Keyed : Keyed complete
complete-Keyed = record {
  secret =
      put-KeyedMap (λ s. s.meta) _ _ _ (λ v e. ap (λ s. key_of s.meta) (sym (some_apart _ v e)))
        (put-KeyedMap (λ s. s.meta) _ _ _ (λ v e. ap (λ s. key_of s.meta) (sym (some_apart _ v e)))
          bare-Keyed.secret);
  cluster = bare-Keyed.cluster;
}

complete-Ready : Ready (replay complete []) remote bytes
unfolding kubeconfig_secret_name append replay put
complete-Ready = record {
  source = record {
    secret = secret_in "team" (("kubeconfig", bytes) ∷ []);
    present = refl;
    content = refl;
  };
  cluster = cluster_naming "";
  present = refl;
  copy = inl refl;
}

-- A HostedCluster that is available.
abbrev running : HostedCluster
running = record hosted {
  conditions =
      record {
        kind = "Available";
        status = condition_true;
        reason = "AsExpected";
        message = "up";
        last_transition_time = 3;
        observed_generation = 2;
      }
      ∷ [];
}

abbrev healthy : Client
healthy = record (serving complete) {
  get_bridge = λ h key. ok remote;
  list_bridges = λ h. ok (remote ∷ []);
  get_hosted_cluster = λ h key. ok running;
}

healthy_echo : StatusEcho healthy
healthy_echo = record { echo = λ h b b' got. cc got }

healthy-Served : Served complete healthy
healthy-Served =
    let s = serving-Served complete in
    record {
      get_secret-present = s.get_secret-present;
      get_secret-absent = s.get_secret-absent;
      create_secret-absent = s.create_secret-absent;
      create_secret-present = s.create_secret-present;
      update_secret-present = s.update_secret-present;
      get_dpu_cluster-present = s.get_dpu_cluster-present;
      update_dpu_cluster-present = s.update_dpu_cluster-present;
    }

running-Available : Available helpers healthy condition_mappings remote_ref
running-Available = record {
  hc = running;
  found = λ h. refl;
  first = _;
  others = _;
  reports = refl;
  source = "Available";
  mapped = refl;
  condition = _;
  has = refl;
  available = refl;
}

mappings-Distinct : Distinct condition_mappings
mappings-Distinct = (refl, (refl, (refl, (refl, (refl, (refl, (refl, tt)))))))

mappings-Leaves : Leaves (is_target condition_mappings)
mappings-Leaves = record {
  missing = refl;
  type_valid = refl;
  in_use = refl;
  secrets = refl;
  image = refl;
}

abbrev start : Trace
start = Call.get_bridge request (ok remote) ∷ []

healthy-Acceptable : Acceptable healthy (update_phase_from_conditions helpers remote) start
unfolding replay apply put update_phase_from_conditions any_failed is_failed is_met
healthy-Acceptable = record {
  cluster = record {
    cluster = cluster_naming "";
    fetched = refl;
    type_supported = refl;
    bridges = remote ∷ [];
    listed = λ t g. refl;
    harmless = (inl (refl, refl), tt);
  };
  secrets = λ t g. record {
    ssh = team_secret "ssh" "id_rsa.pub";
    ssh_fetched = rw (replay-quiet complete start t g) refl;
    ssh_has_key = refl;
    pull = team_secret "pull" ".dockerconfigjson";
    pull_fetched = λ u more_calls.
        rw
          (replay-quiet complete start u
            (Grows-trans g (Grows-weaken reading_secrets→quiet more_calls)))
          refl;
    pull_has_key = refl;
  };
  image = λ t g. inr (record {
    version = "4.19";
    given = release_image_given;
    extracts = release_image-version;
    config_map = images;
    fetched = refl;
    image = image;
    holds = refl;
    filled = image_given;
    tagged = image-tagged;
  });
}

reconcile-ReadyLast_example :
    let r = reconcile helpers healthy [] condition_mappings request [] in
    (r.0 ≡ done) × ReadyLast helpers r.1
reconcile-ReadyLast_example =
    reconcile-ReadyLast healthy helpers_laws (λ t b. refl) complete healthy-Served complete-Keyed
      condition_mappings mappings-Distinct mappings-Leaves [] request remote_ref running-Available
      bytes [] remote refl refl refl refl complete-Ready healthy-Acceptable

validation_features-Accepted_example :
    let r =
      validation_features helpers healthy (update_phase_from_conditions helpers remote) start in
    (stops r.0.1 ≡ false) × ¬ IsFailing helpers r.0.0.status.conditions
validation_features-Accepted_example =
    validation_features-Accepted helpers_laws healthy_echo (λ t b. refl) remote start refl
      healthy-Acceptable
