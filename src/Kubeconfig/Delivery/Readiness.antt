-- ===== src/Kubeconfig/Delivery/Readiness.antt =====
-- The states of the store between two injections.
use dpf_hcp_bridge_operator.Base.{
  some_apart, ℕ, String, none, some, List, ◌≡◌, ap, sym, ◌∙◌, ◌⊎◌, inl, inr,
}
use dpf_hcp_bridge_operator.Types.{DpfHcpBridge, DpuCluster, DpfHcpBridgeStatus, NamespacedName}
use dpf_hcp_bridge_operator.Platform.Server.{Store}
use dpf_hcp_bridge_operator.Report.Laws.{same_but_status}
use dpf_hcp_bridge_operator.Kubeconfig.Injector.{
  kubeconfig_secret_name, source_key, dest_key, cluster_key,
}
use dpf_hcp_bridge_operator.Kubeconfig.Stored.{Holds, Names}
use dpf_hcp_bridge_operator.Kubeconfig.Delivery.Steps.{Referenced, Delivered, Holds-secrets}

-- The source holds the bytes, the DPUCluster exists, and a copy that exists has a kubeconfig.
pub record Ready (st : Store) (b : DpfHcpBridge) (bytes : List ℕ) : Type 0 where
  pub source : Holds st (source_key b (kubeconfig_secret_name b)) bytes
  pub cluster : DpuCluster
  pub present : st.clusters (cluster_key b) ≡ some cluster
  pub copy :
      (st.secrets (dest_key b (kubeconfig_secret_name b)) ≡ none)
      ⊎ ((old : List ℕ) × Holds st (dest_key b (kubeconfig_secret_name b)) old)

abbrev pub IsDelivered : Store → DpfHcpBridge → List ℕ → Type 0
IsDelivered st b bytes = Delivered st b (kubeconfig_secret_name b) bytes

abbrev pub IsNamed : Store → DpfHcpBridge → Type 0
IsNamed st b = Names st (cluster_key b) (kubeconfig_secret_name b)

-- One injection delivers, or it completes the reference that was missing.
abbrev pub Progress : Store → Store → DpfHcpBridge → List ℕ → Type 0
Progress before after b bytes =
    IsDelivered after b bytes
    ⊎ (Referenced before after b (kubeconfig_secret_name b) × ¬ IsNamed before b)

pub named_cluster :
    (st : Store) (key : NamespacedName) (name : String) (d : DpuCluster)
    → st.clusters key ≡ some d
    → Names st key name
    → d.kubeconfig ≡ name
named_cluster st key name d present named =
    ap (λ c. c.kubeconfig) (some_apart d named.cluster (sym present ∙ named.present))
    ∙ named.reference

Delivered-Ready :
    (st : Store) (b : DpfHcpBridge) (bytes : List ℕ) → IsDelivered st b bytes → Ready st b bytes
Delivered-Ready st b bytes delivered = record {
  source = delivered.source;
  cluster = delivered.reference.cluster;
  present = delivered.reference.present;
  copy = inr (bytes, delivered.copy);
}

Referenced-Ready :
    (before after : Store) (b : DpfHcpBridge) (bytes : List ℕ)
    → Referenced before after b (kubeconfig_secret_name b)
    → Ready before b bytes
    → Ready after b bytes
Referenced-Ready before after b bytes referenced ready = record {
  source = Holds-secrets _ bytes referenced.secrets ready.source;
  cluster = referenced.reference.cluster;
  present = referenced.reference.present;
  copy = elim ready.copy [
    | inl absent ↦
        inl (ap (λ f. f (dest_key b (kubeconfig_secret_name b))) referenced.secrets ∙ absent)
    | inr (old, copy) ↦ inr (old, Holds-secrets _ old referenced.secrets copy)
  ];
}

pub Progress-Ready :
    (before after : Store) (b : DpfHcpBridge) (bytes : List ℕ)
    → Progress before after b bytes
    → Ready before b bytes
    → Ready after b bytes × IsNamed after b
Progress-Ready before after b bytes progress ready = elim progress [
  | inl delivered ↦ (Delivered-Ready after b bytes delivered, delivered.reference)
  | inr (referenced, _) ↦
      (Referenced-Ready before after b bytes referenced ready, referenced.reference)
]

-- Another status of the bridge changes nothing.
Ready-moved :
    (st : Store) (b : DpfHcpBridge) (s : DpfHcpBridgeStatus) (bytes : List ℕ)
    → Ready st b bytes
    → Ready st (record b { status = s }) bytes
unfolding kubeconfig_secret_name
Ready-moved st b s bytes ready = record {
  source = ready.source;
  cluster = ready.cluster;
  present = ready.present;
  copy = ready.copy;
}

Ready-status :
    (st : Store) (b : DpfHcpBridge) (s : DpfHcpBridgeStatus) (bytes : List ℕ)
    → Ready st b bytes × IsNamed st b
    → Ready st (record b { status = s }) bytes × IsNamed st (record b { status = s })
unfolding kubeconfig_secret_name
Ready-status st b s bytes (ready, named) = (Ready-moved st b s bytes ready, named)

pub Ready-same :
    (st : Store) (b b' : DpfHcpBridge) (bytes : List ℕ)
    → b'.meta ≡ b.meta
    → b'.spec ≡ b.spec
    → Ready st b bytes × IsNamed st b
    → Ready st b' bytes × IsNamed st b'
Ready-same st b b' bytes meta spec ready =
    rw (sym (same_but_status b b' meta spec)) (Ready-status st b b'.status bytes ready)

pub Ready-kept :
    (st : Store) (b b' : DpfHcpBridge) (bytes : List ℕ)
    → b'.meta ≡ b.meta
    → b'.spec ≡ b.spec
    → Ready st b bytes
    → Ready st b' bytes
Ready-kept st b b' bytes meta spec ready =
    rw (sym (same_but_status b b' meta spec)) (Ready-moved st b b'.status bytes ready)
