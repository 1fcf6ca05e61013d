-- ===== src/Tests/Fixtures.antt =====
-- A bridge, a client that answers for it, and the helpers that the client's libraries give.
use dpf_hcp_bridge_operator.Base.{
  String, Bool, true, false, ◌||◌, none, some, List, [], ◌∷◌, ◌≡◌, ◌==◌, if◌then◌else◌,
}
use dpf_hcp_bridge_operator.Types.{
  Node, internal_ip, external_ip, DpfHcpBridge, ObjectMeta, NamespacedName, DpuCluster, Secret,
  NodePool, HostedCluster, phase_unset, opaque, condition_true,
}
use dpf_hcp_bridge_operator.Platform.{Client, Meta, Reply, ok, err, ApiError, ConditionLaws}
use dpf_hcp_bridge_operator.Report.Laws.{StatusEcho}
use dpf_hcp_bridge_operator.HostedCluster.Manager.{build_hosted_cluster}
use dpf_hcp_bridge_operator.Tests.Conditions.{
  find_condition, put_condition, put_condition-seen, put_condition-unchanged,
}

abbrev has_text : List String → String → Bool
has_text [] x = false
has_text (y ∷ ys) x = y == x || has_text ys x

abbrev without_text : List String → String → List String
without_text [] x = []
without_text (y ∷ ys) x = let rest = without_text ys x in if y == x then rest else y ∷ rest

abbrev pub helpers : Meta
helpers = record {
  find_status_condition = find_condition;
  set_status_condition = λ now cs c. put_condition cs c;
  contains_finalizer = λ o x. has_text o.finalizers x;
  add_finalizer = λ o x. record o { finalizers = x ∷ o.finalizers };
  remove_finalizer = λ o x. record o { finalizers = without_text o.finalizers x };
  is_controlled_by = λ o owner. false;
  set_controller_reference = λ owner o. ok o;
  infra_id = λ name. name;
}

abbrev pub helpers_laws : ConditionLaws helpers
helpers_laws = record {
  seen-set = λ now cs c kind. put_condition-seen cs c kind;
  unchanged_iff = λ now cs c. put_condition-unchanged cs c;
}

abbrev pub named : String → ObjectMeta
named name = record {
  name = name;
  namespace = "team";
  uid = name;
  generation = 1;
  deletion_timestamp = none;
  finalizers = "dpfhcpbridge.provisioning.dpu.hcp.io/finalizer" ∷ [];
  labels = [];
  owner_references = [];
}

abbrev pub bridge : DpfHcpBridge
bridge = record {
  meta = named "b";
  spec = record {
    dpu_cluster_ref = record { name = "dpu"; namespace = "team" };
    base_domain = "example.com";
    ocp_release_image = "r:4.19";
    ssh_key_secret_ref = "ssh";
    pull_secret_ref = "pull";
    etcd_storage_class = "";
    control_plane_availability_policy = "HighlyAvailable";
    virtual_ip = "10.0.0.1";
    node_selector = [];
  };
  status = record {
    phase = phase_unset;
    conditions = [];
    hosted_cluster_ref = none;
    kubeconfig_secret_ref = none;
    bluefield_container_image = "";
  };
}

abbrev pub not_found : ApiError
not_found = record {
  is_not_found = true;
  is_forbidden = false;
  is_conflict = false;
  is_already_exists = false;
  is_no_match = false;
  text = "not found";
}

abbrev pub cluster : DpuCluster
cluster = record { meta = named "dpu"; kind = "static"; kubeconfig = "" }

abbrev pub request : NamespacedName
request = record { namespace = "team"; name = "b" }

abbrev secret_named : String → String → Secret
secret_named name key = record { meta = named name; kind = opaque; content = (key, 1 ∷ []) ∷ [] }

abbrev pub answer_secret : NamespacedName → Reply Secret
answer_secret key =
    if key.name == "ssh"
    then ok (secret_named "ssh" "id_rsa.pub")
    else if key.name == "pull"
    then ok (secret_named "pull" ".dockerconfigjson")
    else err not_found

-- Everything that the bridge references exists, and nothing is provisioned yet.
abbrev pub fresh : Client
fresh = record {
  now = λ h. 0;
  getenv = λ h x. "true";
  read_random = λ h n. ok [];
  get_bridge = λ h key. ok bridge;
  list_bridges = λ h. ok (bridge ∷ []);
  update_bridge = λ h b. ok b;
  update_bridge_status = λ h b. ok b;
  get_dpu_cluster = λ h key. ok cluster;
  update_dpu_cluster = λ h d. ok tt;
  get_secret = λ h key. answer_secret key;
  list_secrets = λ h labels. ok [];
  create_secret = λ h s. ok tt;
  update_secret = λ h s. ok tt;
  delete_secret = λ h key. err not_found;
  get_config_map =
      λ h key. ok (record { meta = named "images"; content = ("4.19", "image:1") ∷ [] });
  get_hosted_cluster = λ h key. err not_found;
  create_hosted_cluster = λ h hc. ok tt;
  delete_hosted_cluster = λ h key. ok tt;
  get_node_pool = λ h key. err not_found;
  create_node_pool = λ h np. ok tt;
  delete_node_pool = λ h key. ok tt;
  list_nodes = λ h. ok [];
}

pub ok_injective : {A : Type 0} {a b : A} → Reply.ok a ≡ Reply.ok b → b ≡ a
ok_injective e = cc e

abbrev pub fresh_echo : StatusEcho fresh
fresh_echo = record { echo = λ h b b' stored. ok_injective stored }

-- The NodePool of the bridge.
abbrev pub pool : NodePool
pool = record {
  meta = named "b";
  spec = record {
    cluster_name = "b";
    replicas = some 0;
    upgrade_type = "Replace";
    platform = "None";
    release_image = "r:4.19";
  };
}

-- The client's answers on the first attempt of a deletion, whose NodePool and secret still exist.
abbrev pub ending : Client
ending = record fresh { get_node_pool = λ h key. ok pool }

-- The last attempt, with a pull secret that is still there.
abbrev pub emptied : Client
emptied = record fresh { get_secret = λ h key. ok (secret_named "ssh" "id_rsa.pub") }

-- A HostedCluster that reports that it is degraded.
abbrev pub hosted : HostedCluster
hosted = record {
  meta = named "b";
  spec = (build_hosted_cluster helpers bridge "").spec;
  conditions =
      record {
        kind = "Degraded";
        status = condition_true;
        reason = "Failing";
        message = "etcd";
        last_transition_time = 3;
        observed_generation = 2;
      }
      ∷ [];
}

-- The HostedCluster has published its kubeconfig.
abbrev pub injectable : Client
injectable = record fresh { get_secret = λ h key. ok (secret_named "s" "kubeconfig") }

-- A node with an external and an internal address.
abbrev pub worker : Node
worker = record {
  name = "worker";
  addresses =
      record { kind = internal_ip; address = "10.0.0.7" }
      ∷ record { kind = external_ip; address = "192.0.2.7" }
      ∷ [];
}

abbrev pub noded : Client
noded = record fresh { list_nodes = λ h. ok (worker ∷ []) }

-- Nothing of the bridge is left.
abbrev pub vacant : Client
vacant = record fresh { get_secret = λ h key. err not_found }

-- A copy of the kubeconfig is listed and can be deleted.
abbrev pub copied : Client
copied = record fresh {
  list_secrets = λ h labels. ok (secret_named "b-admin-kubeconfig" "kubeconfig" ∷ []);
  delete_secret = λ h key. ok tt;
}

-- Only the HostedCluster, the NodePool and no secret are left; and then the NodePool alone.
abbrev pub populated : Client
populated = record fresh {
  get_hosted_cluster = λ h key. ok hosted;
  get_node_pool = λ h key. ok pool;
  get_secret = λ h key. err not_found;
  delete_secret = λ h key. ok tt;
}

abbrev pub pooled : Client
pooled = record populated { get_hosted_cluster = λ h key. err not_found }

abbrev pub drained : Client
drained = record pooled { get_node_pool = λ h key. err not_found }
