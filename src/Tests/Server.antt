-- ===== src/Tests/Server.antt =====
-- A client that answers from a store, and stores around the injection of a kubeconfig.
use dpf_hcp_bridge_operator.Base.{
  some_apart, ℕ, String, true, false, Option, none, some, List, [], ◌∷◌, ◌≡◌, refl, ap, sym, inr,
  Assoc,
}
use dpf_hcp_bridge_operator.Base.Text.{append}
use dpf_hcp_bridge_operator.Types.{
  DpfHcpBridge, DpuCluster, Secret, ObjectReference, key_of, opaque,
}
use dpf_hcp_bridge_operator.Platform.{Client, Reply, ApiError, ok, err}
use dpf_hcp_bridge_operator.Platform.Server.{Store, Served, Keyed, put, put-KeyedMap, replay}
use dpf_hcp_bridge_operator.Kubeconfig.Injector.{
  kubeconfig_secret_name, source_key, dest_key, cluster_key,
}
use dpf_hcp_bridge_operator.Kubeconfig.Stored.{Holds, Names}
use dpf_hcp_bridge_operator.Kubeconfig.Delivery.Readiness.{Ready, IsDelivered}
use dpf_hcp_bridge_operator.Tests.Fixtures.{named, bridge, fresh, not_found, cluster}

abbrev already_exists : ApiError
already_exists = record not_found { is_not_found = false; is_already_exists = true }

abbrev answer : {A : Type 0} → Option A → Reply A
answer none = err not_found
answer (some a) = ok a

abbrev created : Option Secret → Reply (Unit {0})
created none = ok tt
created (some s) = err already_exists

abbrev updated : {A : Type 0} → Option A → Reply (Unit {0})
updated none = err not_found
updated (some s) = ok tt

abbrev pub serving : Store → Client
serving s0 = record fresh {
  get_secret = λ h key. answer ((replay s0 h).secrets key);
  create_secret = λ h s. created ((replay s0 h).secrets (key_of s.meta));
  update_secret = λ h s. updated ((replay s0 h).secrets (key_of s.meta));
  get_dpu_cluster = λ h key. answer ((replay s0 h).clusters key);
  update_dpu_cluster = λ h d. updated ((replay s0 h).clusters (key_of d.meta));
}

pub serving-Served : (s0 : Store) → Served s0 (serving s0)
serving-Served s0 = record {
  get_secret-present = λ h key s e. rw e refl;
  get_secret-absent = λ h key e. (not_found, rw e refl, refl);
  create_secret-absent = λ h s e. rw e refl;
  create_secret-present = λ h s old e. (already_exists, rw e refl, refl);
  update_secret-present = λ h s old e. rw e refl;
  get_dpu_cluster-present = λ h key d e. rw e refl;
  update_dpu_cluster-present = λ h d old e. rw e refl;
}

-- A bridge whose DPUCluster stands in another namespace.
abbrev pub remote : DpfHcpBridge
remote = record bridge {
  spec = record bridge.spec { dpu_cluster_ref = record { name = "dpu"; namespace = "dpf" } };
  status = record bridge.status {
    hosted_cluster_ref = some (record {
      name = "b";
      namespace = "team";
      kind = "HostedCluster";
      api_version = "hypershift.openshift.io/v1beta1";
    });
  };
}

abbrev pub remote_ref : ObjectReference
remote_ref = record {
  name = "b";
  namespace = "team";
  kind = "HostedCluster";
  api_version = "hypershift.openshift.io/v1beta1";
}

abbrev pub secret_in : String → Assoc (List ℕ) → Secret
secret_in namespace content = record {
  meta = record (named "b-admin-kubeconfig") { namespace = namespace };
  kind = opaque;
  content = content;
}

abbrev pub cluster_naming : String → DpuCluster
cluster_naming name = record cluster {
  meta = record (named "dpu") { namespace = "dpf" };
  kubeconfig = name;
}

abbrev copy_in : Option (Assoc (List ℕ)) → Option Secret
copy_in none = none
copy_in (some content) = some (secret_in "dpf" content)

-- The source, a copy of some content or none, and a DPUCluster that names a secret.
abbrev stored : Option (Assoc (List ℕ)) → String → Store
stored copy name = record {
  secrets =
      put (record { namespace = "dpf"; name = "b-admin-kubeconfig" }) (copy_in copy)
        (put (record { namespace = "team"; name = "b-admin-kubeconfig" })
          (some (secret_in "team" (("kubeconfig", 1 ∷ 2 ∷ []) ∷ []))) (λ q. none));
  clusters =
      put (record { namespace = "dpf"; name = "dpu" }) (some (cluster_naming name)) (λ q. none);
}

copy_own :
    (copy : Option (Assoc (List ℕ))) (v : Secret)
    → copy_in copy ≡ some v
    → key_of v.meta ≡ record { namespace = "dpf"; name = "b-admin-kubeconfig" }
copy_own none v e = absurd (cc e)
copy_own (some content) v e = ap (λ s. key_of s.meta) (sym (some_apart _ v e))

stored-Keyed : (copy : Option (Assoc (List ℕ))) (name : String) → Keyed (stored copy name)
stored-Keyed copy name = record {
  secret =
      put-KeyedMap (λ s. s.meta) _ _ (copy_in copy) (copy_own copy)
        (put-KeyedMap (λ s. s.meta) (λ q. none) _ _
          (λ v e. ap (λ s. key_of s.meta) (sym (some_apart _ v e))) (λ key v e. absurd (cc e)));
  cluster =
      put-KeyedMap (λ d. d.meta) (λ q. none) _ _
        (λ v e. ap (λ d. key_of d.meta) (sym (some_apart _ v e))) (λ key v e. absurd (cc e));
}

abbrev pub bytes : List ℕ
bytes = 1 ∷ 2 ∷ []

-- Before the first injection, over an old copy.
abbrev pub before : Store
before = stored (some (("kubeconfig", 7 ∷ []) ∷ [])) ""

pub before-Keyed : Keyed before
before-Keyed = stored-Keyed (some (("kubeconfig", 7 ∷ []) ∷ [])) ""

pub before-Ready : Ready (replay before []) remote bytes
unfolding kubeconfig_secret_name append replay put
before-Ready = record {
  source = record {
    secret = secret_in "team" (("kubeconfig", bytes) ∷ []);
    present = refl;
    content = refl;
  };
  cluster = cluster_naming "";
  present = refl;
  copy = inr (
    7 ∷ [],
    record {
      secret = secret_in "dpf" (("kubeconfig", 7 ∷ []) ∷ []);
      present = refl;
      content = refl;
    },
  );
}

-- After an injection.
abbrev pub settled : Store
settled = stored (some (("kubeconfig", bytes) ∷ [])) "b-admin-kubeconfig"

pub settled-Keyed : Keyed settled
settled-Keyed = stored-Keyed (some (("kubeconfig", bytes) ∷ [])) "b-admin-kubeconfig"

pub settled-IsDelivered : IsDelivered (replay settled []) remote bytes
unfolding kubeconfig_secret_name append replay put
settled-IsDelivered = record {
  source = record {
    secret = secret_in "team" (("kubeconfig", bytes) ∷ []);
    present = refl;
    content = refl;
  };
  copy = record {
    secret = secret_in "dpf" (("kubeconfig", bytes) ∷ []);
    present = refl;
    content = refl;
  };
  reference = record {
    cluster = cluster_naming "b-admin-kubeconfig";
    present = refl;
    reference = refl;
  };
}

-- The copy has lost its key.
abbrev pub keyless : Store
keyless = stored (some []) "b-admin-kubeconfig"

pub keyless-Keyed : Keyed keyless
keyless-Keyed = stored-Keyed (some []) "b-admin-kubeconfig"

abbrev pub keyless_copy : Secret
keyless_copy = secret_in "dpf" []

pub keyless-source :
    Holds (replay keyless []) (source_key remote (kubeconfig_secret_name remote)) bytes
unfolding kubeconfig_secret_name append replay put
keyless-source = record {
  secret = secret_in "team" (("kubeconfig", bytes) ∷ []);
  present = refl;
  content = refl;
}

pub keyless-copy :
    (replay keyless []).secrets (dest_key remote (kubeconfig_secret_name remote))
    ≡ some keyless_copy
unfolding kubeconfig_secret_name append replay put
keyless-copy = refl

pub keyless-Names : Names (replay keyless []) (cluster_key remote) (kubeconfig_secret_name remote)
unfolding kubeconfig_secret_name append replay put
keyless-Names = record {
  cluster = cluster_naming "b-admin-kubeconfig";
  present = refl;
  reference = refl;
}

-- Before the first injection, without a copy.
abbrev pub bare : Store
bare = stored none ""

pub bare-Keyed : Keyed bare
bare-Keyed = stored-Keyed none ""
