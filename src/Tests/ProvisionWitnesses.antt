-- ===== src/Tests/ProvisionWitnesses.antt =====
-- The provisioning of a bridge, at a concrete client.
use dpf_hcp_bridge_operator.Base.{Bool, true, false, ◌||◌, ◌==◌, [], ◌∷◌, ◌≡◌, refl, ap, ◌⊎◌}
use dpf_hcp_bridge_operator.Base.Text.{append}
use dpf_hcp_bridge_operator.Base.Result.{on_result}
use dpf_hcp_bridge_operator.Types.{
  DpfHcpBridge, NamespacedName, Secret, phase_pending, key_of, opaque,
  should_expose_through_load_balancer,
}
use dpf_hcp_bridge_operator.Platform.{
  Client, Meta, Call, Reply, ok, err, stops, done, ◌>>=◌, call, on_reply, on_option, pure,
  ◌and_then◌,
}
use dpf_hcp_bridge_operator.Platform.Server.{key_eq, key_eq_refl}
use dpf_hcp_bridge_operator.HostedCluster.SecretManager.{
  pull_secret_name, ssh_key_name, etcd_key_name, create_owned_secret, copy_pull_secret,
  copy_ssh_key, copy_secrets, generate_new_key, generate_etcd_encryption_key,
}
use dpf_hcp_bridge_operator.HostedCluster.Manager.{
  build_hosted_cluster, address_of_type, first_address, detect_node_address, create_with_address,
  create_new_hosted_cluster, create_or_update_hosted_cluster,
}
use dpf_hcp_bridge_operator.HostedCluster.NodePools.{
  build_node_pool, create_new_node_pool, create_node_pool_once,
}
use dpf_hcp_bridge_operator.HostedCluster.Copies.{SecretsCopied, copy_secrets-Copied}
use dpf_hcp_bridge_operator.HostedCluster.Established.{
  HeldHostedCluster, create_or_update_hosted_cluster-Held,
}
use dpf_hcp_bridge_operator.HostedCluster.Lasting.{ControllerLaws, Lasting}
use dpf_hcp_bridge_operator.HostedCluster.Again.{Idle}
use dpf_hcp_bridge_operator.Controller.Phase.{update_phase_from_conditions}
use dpf_hcp_bridge_operator.Controller.PhaseLaws.{IsFailing}
use dpf_hcp_bridge_operator.Controller.Deletion.{registered_handlers}
use dpf_hcp_bridge_operator.Controller.Reconcile.{
  secrets_feature, creation_feature, provisioning_features, validation_features, reconcile,
}
use dpf_hcp_bridge_operator.Controller.Reconcile.Established.{Established}
use dpf_hcp_bridge_operator.Controller.Reconcile.Establishes.{reconcile_establishes}
use dpf_hcp_bridge_operator.Controller.Reconcile.Again.{provisioning_features_twice}
use dpf_hcp_bridge_operator.Tests.Traces.{has_made, has_made_lem}
use dpf_hcp_bridge_operator.Tests.Runs.{first_run_completes}
use dpf_hcp_bridge_operator.Tests.Fixtures.{
  helpers, helpers_laws, named, bridge, fresh, fresh_echo, not_found, request, hosted, pool, noded,
  ok_injective,
}

reconcile_establishes_example :
    let w =
      (validation_features helpers fresh
        (update_phase_from_conditions helpers bridge)
        (Call.get_bridge request (ok bridge) ∷ [])).0.0 in
    let v = update_phase_from_conditions helpers w in
    (v.meta ≡ bridge.meta)
    × (v.spec ≡ bridge.spec)
    × (IsFailing helpers w.status.conditions
        ⊎ Established helpers v
            (reconcile helpers fresh (registered_handlers fresh) [] request []).1)
reconcile_establishes_example =
    reconcile_establishes helpers_laws fresh_echo (registered_handlers fresh) [] request [] bridge
      refl refl refl (λ e. absurd (cc e)) refl first_run_completes

-- A bridge whose services are published at a node.
abbrev exposed : DpfHcpBridge
exposed = record bridge {
  spec = record bridge.spec {
    control_plane_availability_policy = "SingleReplica";
    virtual_ip = "";
  };
  status = record bridge.status { phase = phase_pending };
}

noded_run-goes_on : stops (create_or_update_hosted_cluster helpers noded exposed []).0.1 ≡ false
unfolding append ◌>>=◌ call on_reply on_option on_result pure should_expose_through_load_balancer
    create_or_update_hosted_cluster create_new_hosted_cluster create_with_address
    detect_node_address first_address address_of_type
noded_run-goes_on = refl

create_or_update_hosted_cluster-Held_example :
    HeldHostedCluster helpers exposed (create_or_update_hosted_cluster helpers noded exposed []).1
create_or_update_hosted_cluster-Held_example =
    create_or_update_hosted_cluster-Held helpers noded exposed [] noded_run-goes_on

copies_run-goes_on : stops (copy_secrets helpers fresh bridge []).0.1 ≡ false
unfolding append ◌>>=◌ call on_reply on_option pure copy_secrets copy_pull_secret copy_ssh_key
    pull_secret_name ssh_key_name create_owned_secret
copies_run-goes_on = refl

copy_secrets-Copied_example : SecretsCopied helpers bridge (copy_secrets helpers fresh bridge []).1
copy_secrets-Copied_example = copy_secrets-Copied helpers fresh bridge [] copies_run-goes_on

-- Every object is controlled by every bridge.
abbrev owning : Meta
owning = record helpers { is_controlled_by = λ o owner. true }

owning_laws : ControllerLaws owning
owning_laws = record {
  controlled = λ owner o o' e. refl;
  key = λ owner o o' e. ap key_of (ok_injective e);
}

abbrev gives_secret : NamespacedName → Call → Bool
gives_secret key (Call.get_secret k (ok s)) = key_eq k key
gives_secret key (Call.create_secret s (ok u)) = key_eq (key_of s.meta) key
gives_secret key _ = false

abbrev gives_hosted_cluster : Call → Bool
gives_hosted_cluster (Call.get_hosted_cluster k (ok o)) = true
gives_hosted_cluster (Call.create_hosted_cluster o (ok u)) = true
gives_hosted_cluster _ = false

abbrev gives_node_pool : Call → Bool
gives_node_pool (Call.get_node_pool k (ok o)) = true
gives_node_pool (Call.create_node_pool o (ok u)) = true
gives_node_pool _ = false

abbrev given : {A : Type 0} → A → Bool → Reply A
given a true = ok a
given a false = err not_found

abbrev secret_at : NamespacedName → Secret
secret_at key = record {
  meta = record (named key.name) { namespace = key.namespace };
  kind = opaque;
  content = [];
}

abbrev source : NamespacedName → Bool
source key = key.name == "ssh" || key.name == "pull"

-- The sources are there from the start, and everything else once it is stored.
abbrev keeper : Client
keeper = record noded {
  get_secret = λ h key. given (secret_at key) (has_made (gives_secret key) h || source key);
  get_hosted_cluster = λ h key. given hosted (has_made gives_hosted_cluster h);
  get_node_pool = λ h key. given pool (has_made gives_node_pool h);
}

keeper_lasts : Lasting owning exposed keeper
keeper_lasts = record {
  found_secret = λ h key s u l.
      (secret_at key, rw (has_made_lem (gives_secret key) _ h (key_eq_refl key) l) refl, refl);
  stored_secret = λ h s u l. (
    secret_at (key_of s.meta),
    rw (has_made_lem (gives_secret (key_of s.meta)) _ h (key_eq_refl (key_of s.meta)) l) refl,
    refl,
  );
  found_hosted_cluster =
      λ h key o u l. (hosted, rw (has_made_lem gives_hosted_cluster _ h refl l) refl, refl);
  stored_hosted_cluster =
      λ h o u l. (hosted, rw (has_made_lem gives_hosted_cluster _ h refl l) refl, refl);
  found_node_pool = λ h key o u l. (pool, rw (has_made_lem gives_node_pool _ h refl l) refl, refl);
  stored_node_pool = λ h o u l. (pool, rw (has_made_lem gives_node_pool _ h refl l) refl, refl);
}

keeper_run-goes_on : stops (provisioning_features owning keeper exposed []).0.1 ≡ false
unfolding append ◌>>=◌ call on_reply on_option on_result pure ◌and_then◌
    should_expose_through_load_balancer provisioning_features secrets_feature creation_feature
    copy_secrets copy_pull_secret copy_ssh_key pull_secret_name ssh_key_name etcd_key_name
    create_owned_secret generate_etcd_encryption_key generate_new_key
    create_or_update_hosted_cluster create_new_hosted_cluster create_with_address
    detect_node_address first_address address_of_type build_hosted_cluster create_node_pool_once
    create_new_node_pool build_node_pool
keeper_run-goes_on = refl

provisioning_features_twice_example :
    let t = (provisioning_features owning keeper exposed []).1 in
    Idle (exposed, done) t (provisioning_features owning keeper exposed t)
provisioning_features_twice_example =
    provisioning_features_twice owning_laws keeper_lasts refl [] (λ made. made.2) keeper_run-goes_on
