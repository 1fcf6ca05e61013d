-- ===== src/Kubeconfig/Stored.antt =====
-- What the steps of the injection leave in the store of the server.
use dpf_hcp_bridge_operator.Base.{
  ℕ, String, none, some, List, [], ◌∷◌, ◌≡◌, refl, ap, ◌∙◌, inl, inr, Bool-cases, Option-cases,
  lookup,
}
use dpf_hcp_bridge_operator.Types.{DpfHcpBridge, DpuCluster, Secret, NamespacedName, key_of}
use dpf_hcp_bridge_operator.Platform.{
  Client, Call, Trace, ok, err, pure, ◌>>=◌, call, on_reply, on_option,
}
use dpf_hcp_bridge_operator.Platform.Server.{
  Store, Served, Keyed, Keyed-replay, put, put_at, key_eq, apply, replay,
}
use dpf_hcp_bridge_operator.Kubeconfig.Injector.{
  source_key, dest_key, cluster_key, create_or_update_kubeconfig_secret, update_kubeconfig_secret,
  update_dpu_cluster_reference,
}
use dpf_hcp_bridge_operator.Kubeconfig.Written.{new_copy, over_copy}

-- The secret at the key has these bytes as its kubeconfig.
pub record Holds (st : Store) (key : NamespacedName) (bytes : List ℕ) : Type 0 where
  pub secret : Secret
  pub present : st.secrets key ≡ some secret
  pub content : lookup "kubeconfig" secret.content ≡ some bytes

-- The DPUCluster at the key names the secret.
pub record Names (st : Store) (key : NamespacedName) (name : String) : Type 0 where
  pub cluster : DpuCluster
  pub present : st.clusters key ≡ some cluster
  pub reference : cluster.kubeconfig ≡ name

abbrev pub Present : Store → NamespacedName → Type 0
Present st key = (d : DpuCluster) × (st.clusters key ≡ some d)

put-Holds :
    (st : Store) (s : Secret) (key : NamespacedName) (bytes : List ℕ)
    → lookup "kubeconfig" s.content ≡ some bytes
    → Holds st key bytes
    → Holds (record st { secrets = put (key_of s.meta) (some s) st.secrets }) key bytes
unfolding put
put-Holds st s key bytes content held = elim (Bool-cases (key_eq (key_of s.meta) key)) [
  | inl same ↦ record { secret = s; present = rw same refl; content = content }
  | inr apart ↦ record {
    secret = held.secret;
    present = rw apart held.present;
    content = held.content;
  }
]

-- The bytes are copied to the key, and no reader of them, nor of a DPUCluster, sees a difference.
pub record Copied (before after : Store) (key : NamespacedName) (bytes : List ℕ) : Type 0 where
  pub copy : Holds after key bytes
  pub kept : (other : NamespacedName) → Holds before other bytes → Holds after other bytes
  pub clusters : after.clusters ≡ before.clusters

stored-Copied :
    (st : Store) (s : Secret) (key : NamespacedName) (bytes : List ℕ)
    → key_of s.meta ≡ key
    → s.content ≡ ("kubeconfig", bytes) ∷ []
    → Copied st (record st { secrets = put (key_of s.meta) (some s) st.secrets }) key bytes
stored-Copied st s key bytes own content =
    let read : lookup "kubeconfig" s.content ≡ some bytes = rw content refl in
    record {
      copy = record { secret = s; present = put_at (key_of s.meta) key _ _ own; content = read };
      kept = λ other held. put-Holds st s other bytes read held;
      clusters = refl;
    }

module _ (k : Client) (s0 : Store) (served : Served s0 k) (keyed : Keyed s0) where
  -- Where the DPUCluster exists, the update of its reference succeeds, and touches nothing else.
  pub reference-Names :
      (b : DpfHcpBridge) (name : String) (h : Trace)
      → Present (replay s0 h) (cluster_key b)
      → ((update_dpu_cluster_reference k b name h).0 ≡ none)
        × Names (replay s0 (update_dpu_cluster_reference k b name h).1) (cluster_key b) name
        × ((replay s0 (update_dpu_cluster_reference k b name h).1).secrets ≡ (replay s0 h).secrets)
  unfolding update_dpu_cluster_reference ◌>>=◌ call on_reply pure replay apply
  reference-Names b name h (d, present) =
      let got = served.get_dpu_cluster-present h (cluster_key b) d present in
      let h1 : Trace = Call.get_dpu_cluster (cluster_key b) (ok d) ∷ h in
      let own = (Keyed-replay s0 h keyed).cluster (cluster_key b) d present in
      let stored =
        served.update_dpu_cluster-present h1 (record d { kubeconfig = name }) d
          (ap (replay s0 h).clusters own ∙ present) in
      rw got (
        rw stored (
          refl,
          record {
            cluster = record d { kubeconfig = name };
            present = put_at (key_of d.meta) (cluster_key b) _ _ own;
            reference = refl;
          },
          refl,
        ))

  -- The copy over a secret that exists already.
  update-Holds :
      (b : DpfHcpBridge) (name : String) (bytes : List ℕ) (old : Secret) (h : Trace)
      → (replay s0 h).secrets (dest_key b name) ≡ some old
      → ((update_kubeconfig_secret k b name bytes h).0 ≡ none)
        × Copied
            (replay s0 h)
            (replay s0 (update_kubeconfig_secret k b name bytes h).1)
            (dest_key b name)
            bytes
  unfolding update_kubeconfig_secret ◌>>=◌ call on_reply pure replay apply
  update-Holds b name bytes old h present =
      let got = served.get_secret-present h (dest_key b name) old present in
      let h1 : Trace = Call.get_secret (dest_key b name) (ok old) ∷ h in
      let own = (Keyed-replay s0 h keyed).secret (dest_key b name) old present in
      let copy = over_copy b old bytes in
      let stored =
        served.update_secret-present h1 copy old (ap (replay s0 h).secrets own ∙ present) in
      rw got (rw stored (refl, stored-Copied (replay s0 h) copy (dest_key b name) bytes own refl))

  -- Where the source holds the bytes, the copy succeeds.
  pub kubeconfig-Holds :
      (b : DpfHcpBridge) (name : String) (bytes : List ℕ) (h : Trace)
      → Holds (replay s0 h) (source_key b name) bytes
      → ((create_or_update_kubeconfig_secret k b name h).0 ≡ none)
        × Copied
            (replay s0 h)
            (replay s0 (create_or_update_kubeconfig_secret k b name h).1)
            (dest_key b name)
            bytes
  unfolding create_or_update_kubeconfig_secret ◌>>=◌ call on_reply on_option pure replay apply
  kubeconfig-Holds b name bytes h source =
      let got = served.get_secret-present h (source_key b name) source.secret source.present in
      let h1 : Trace = Call.get_secret (source_key b name) (ok source.secret) ∷ h in
      let copy = new_copy b name bytes in
      elim (Option-cases ((replay s0 h).secrets (dest_key b name))) [
        | inl absent ↦
            let created = served.create_secret-absent h1 copy absent in
            simp (got, source.content, created)
              (refl, stored-Copied (replay s0 h) copy (dest_key b name) bytes refl refl)
        | inr (old, present) ↦
            let (e, refused, exists) = served.create_secret-present h1 copy old present in
            let h2 : Trace = Call.create_secret copy (err e) ∷ h1 in
            simp (got, source.content, refused, exists) (update-Holds b name bytes old h2 present)
      ]
