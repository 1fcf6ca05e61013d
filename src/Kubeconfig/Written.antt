-- ===== src/Kubeconfig/Written.antt =====
-- What has been written once the copy of the kubeconfig, or the reference to it, reports no error.
use dpf_hcp_bridge_operator.Base.{
  ℕ, String, none, some, List, [], ◌∷◌, ◌≡◌, refl, ◌⊎◌, inl, inr, Bool-cases, Option-cases, lookup,
}
use dpf_hcp_bridge_operator.Types.{DpfHcpBridge, DpuCluster, Secret, opaque}
use dpf_hcp_bridge_operator.Platform.{
  Client, Meta, Call, Trace, ok, err, Reply-cases, pure, ◌>>=◌, call, on_reply, on_option,
}
use dpf_hcp_bridge_operator.Platform.Only.{Logged, Only-Logged}
use dpf_hcp_bridge_operator.HostedCluster.SecretManager.{new_meta}
use dpf_hcp_bridge_operator.Kubeconfig.Calls.{update_secret-Only}
use dpf_hcp_bridge_operator.Kubeconfig.Injector.{
  source_key, dest_key, cluster_key, label_owned_by, label_namespace,
  create_or_update_kubeconfig_secret, update_kubeconfig_secret, update_dpu_cluster_reference,
}

-- The kubeconfig of the source secret stands in a secret that the API has stored: a new one in the
-- namespace of the DPUCluster, or the one that was there.
pub record Copied (bridge : DpfHcpBridge) (name : String) (t : Trace) : Type 0 where
  pub source : Secret
  pub copy : Secret
  pub bytes : List ℕ
  pub read : Logged (Call.get_secret (source_key bridge name) (ok source)) t
  pub found : lookup "kubeconfig" source.content ≡ some bytes
  pub content : copy.content ≡ ("kubeconfig", bytes) ∷ []
  pub stored :
      Logged (Call.create_secret copy (ok tt)) t ⊎ Logged (Call.update_secret copy (ok tt)) t

-- The secret that the copy creates.
abbrev pub new_copy : DpfHcpBridge → String → List ℕ → Secret
new_copy bridge name bytes = record {
  meta = record (new_meta name bridge.spec.dpu_cluster_ref.namespace) {
    labels = (label_owned_by, bridge.meta.name) ∷ (label_namespace, bridge.meta.namespace) ∷ [];
  };
  kind = opaque;
  content = ("kubeconfig", bytes) ∷ [];
}

-- What it makes of a secret that is there.
abbrev pub over_copy : DpfHcpBridge → Secret → List ℕ → Secret
over_copy bridge old bytes = record old {
  content = ("kubeconfig", bytes) ∷ [];
  meta = record old.meta {
    labels = (label_owned_by, bridge.meta.name) ∷ (label_namespace, bridge.meta.namespace) ∷ [];
  };
}

module _ (m : Meta) (k : Client) where
  updated_copy :
      (bridge : DpfHcpBridge) (name : String) (bytes : List ℕ) (h : Trace)
      → (update_kubeconfig_secret k bridge name bytes h).0 ≡ none
      → (copy : Secret) × (copy.content ≡ ("kubeconfig", bytes) ∷ [])
        × Logged
            (Call.update_secret copy (ok tt))
            (update_kubeconfig_secret k bridge name bytes h).1
  unfolding update_kubeconfig_secret ◌>>=◌ call on_reply pure
  updated_copy bridge name bytes h complete =
      elim (Reply-cases (k.get_secret h (dest_key bridge name))) [
        | inr (x, failed) ↦ cc (rw failed at complete)
        | inl (s, got) ↦
            let copy = over_copy bridge s bytes in
            elim (Reply-cases
              (k.update_secret (Call.get_secret (dest_key bridge name) (ok s) ∷ h) copy)) [
                | inl (u, stored) ↦ rw got (rw stored (copy, refl, inl refl))
                | inr (x, failed) ↦ cc (rw (got, failed) at complete)
              ]
      ]

  -- Where the copy of the kubeconfig reports no error: the secret of the HostedCluster was read, it
  -- holds a kubeconfig, and the API has stored a secret that holds these bytes and nothing else.
  pub kubeconfig-Copied :
      (bridge : DpfHcpBridge) (name : String) (h : Trace)
      → (create_or_update_kubeconfig_secret k bridge name h).0 ≡ none
      → Copied bridge name (create_or_update_kubeconfig_secret k bridge name h).1
  unfolding create_or_update_kubeconfig_secret ◌>>=◌ call on_reply on_option pure
  kubeconfig-Copied bridge name h complete =
      elim (Reply-cases (k.get_secret h (source_key bridge name))) [
        | inr (x, failed) ↦ cc (rw failed at complete)
        | inl (s, got) ↦ elim (Option-cases (lookup "kubeconfig" s.content)) [
          | inl missing ↦ cc (rw (got, missing) at complete)
          | inr (bytes, found) ↦
              let h1 : Trace = Call.get_secret (source_key bridge name) (ok s) ∷ h in
              let copy = new_copy bridge name bytes in
              elim (Reply-cases (k.create_secret h1 copy)) [
                | inl (u, stored) ↦
                    rw (got, found)
                      (rw stored (record {
                        source = s;
                        copy = copy;
                        bytes = bytes;
                        read = inr (inl refl);
                        found = found;
                        content = refl;
                        stored = inl (inl refl);
                      }))
                | inr (x, failed) ↦ elim (Bool-cases x.is_already_exists) [
                  | inr other ↦ cc (simp (got, found, failed, other) at complete)
                  | inl exists ↦
                      let h2 : Trace = Call.create_secret copy (err x) ∷ h1 in
                      let (c, same, put) =
                        updated_copy bridge name bytes h2
                          (simp (got, found, failed, exists) at complete) in
                      simp (got, found, failed, exists)
                        (record {
                          source = s;
                          copy = c;
                          bytes = bytes;
                          read =
                              Only-Logged _ h2 (update_secret-Only m k bridge name bytes)
                                (inr (inl refl));
                          found = found;
                          content = same;
                          stored = inr put;
                        })
                ]
              ]
        ]
      ]

module _ (k : Client) where
  -- Where the update of the reference reports no error: the DPUCluster of the bridge was read, and the
  -- API has stored it with the name of the secret as its kubeconfig and nothing else changed.
  pub dpu_cluster_references_secret :
      (bridge : DpfHcpBridge) (name : String) (h : Trace)
      → (update_dpu_cluster_reference k bridge name h).0 ≡ none
      → (d : DpuCluster) × Logged
          (Call.get_dpu_cluster (cluster_key bridge) (ok d))
          (update_dpu_cluster_reference k bridge name h).1
        × Logged
            (Call.update_dpu_cluster (record d { kubeconfig = name }) (ok tt))
            (update_dpu_cluster_reference k bridge name h).1
  unfolding update_dpu_cluster_reference ◌>>=◌ call on_reply pure
  dpu_cluster_references_secret bridge name h complete =
      elim (Reply-cases (k.get_dpu_cluster h (cluster_key bridge))) [
        | inr (x, failed) ↦ cc (rw failed at complete)
        | inl (d, got) ↦
            elim (Reply-cases (
              k.update_dpu_cluster (Call.get_dpu_cluster (cluster_key bridge) (ok d) ∷ h)
                (record d { kubeconfig = name }))) [
                  | inl (u, stored) ↦ rw got (rw stored (d, inr (inl refl), inl refl))
                  | inr (x, failed) ↦ cc (rw (got, failed) at complete)
                ]
      ]
