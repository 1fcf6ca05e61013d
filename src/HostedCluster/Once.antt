-- ===== src/HostedCluster/Once.antt =====
-- When the provisioning creates an object: only one that the API said does not exist.
use dpf_hcp_bridge_operator.Base.{Bool, true, false, ◌≡◌, refl, ◌⊎◌, inl, inr, Bool-cases}
use dpf_hcp_bridge_operator.Types.{DpfHcpBridge, key_of}
use dpf_hcp_bridge_operator.Platform.{
  Client, Meta, Call, Trace, ApiError, err, Reply-cases, ◌>>=◌, call, on_reply, pure,
}
use dpf_hcp_bridge_operator.Platform.Only.{Only-Logged, Made, Made-earlier, Logged}
use dpf_hcp_bridge_operator.HostedCluster.Creations.{
  new_hosted_cluster-keeping, new_node_pool-keeping, new_key-keeping,
}
use dpf_hcp_bridge_operator.HostedCluster.Manager.{create_or_update_hosted_cluster}
use dpf_hcp_bridge_operator.HostedCluster.NodePools.{create_node_pool_once}
use dpf_hcp_bridge_operator.HostedCluster.SecretManager.{
  generate_etcd_encryption_key, etcd_key_name,
}

abbrev pub creates : Call → Bool
creates (Call.create_hosted_cluster o r) = true
creates (Call.create_node_pool o r) = true
creates (Call.create_secret o r) = true
creates _ = false

module _ (m : Meta) (k : Client) where
  -- The step of the HostedCluster creates an object only after the API said that there is no HostedCluster of the
  -- bridge's name: one that exists is never replaced, whoever owns it.
  pub hosted_cluster_created_once :
      (cr : DpfHcpBridge) (h : Trace)
      → Made creates (create_or_update_hosted_cluster m k cr h).1
      → Made creates h
        ⊎ ((e : ApiError) × (e.is_not_found ≡ true)
            × Logged
                (Call.get_hosted_cluster (key_of cr.meta) (err e))
                (create_or_update_hosted_cluster m k cr h).1)
  unfolding create_or_update_hosted_cluster ◌>>=◌ call on_reply pure
  hosted_cluster_created_once cr h made =
      elim (Reply-cases (k.get_hosted_cluster h (key_of cr.meta))) [
        | inl (o, found) ↦ elim (Bool-cases (m.is_controlled_by o.meta cr.meta)) [
          | inl owned ↦ inl (Made-earlier _ h refl (simp (found, owned) at made))
          | inr foreign ↦ inl (Made-earlier _ h refl (simp (found, foreign) at made))
        ]
        | inr (e, failed) ↦ elim (Bool-cases e.is_not_found) [
          | inl absent ↦ inr (
            e,
            absent,
            simp (failed, absent) (Only-Logged _ _ (new_hosted_cluster-keeping m k cr) (inl refl)),
          )
          | inr other ↦ inl (Made-earlier _ h refl (simp (failed, other) at made))
        ]
      ]

  -- The step of the NodePool creates an object only after the API said that there is no NodePool of the
  -- bridge's name: one that exists is never replaced, whoever owns it.
  pub node_pool_created_once :
      (cr : DpfHcpBridge) (h : Trace)
      → Made creates (create_node_pool_once m k cr h).1
      → Made creates h
        ⊎ ((e : ApiError) × (e.is_not_found ≡ true)
            × Logged
                (Call.get_node_pool (key_of cr.meta) (err e))
                (create_node_pool_once m k cr h).1)
  unfolding create_node_pool_once ◌>>=◌ call on_reply pure
  node_pool_created_once cr h made = elim (Reply-cases (k.get_node_pool h (key_of cr.meta))) [
    | inl (o, found) ↦ elim (Bool-cases (m.is_controlled_by o.meta cr.meta)) [
      | inl owned ↦ inl (Made-earlier _ h refl (simp (found, owned) at made))
      | inr foreign ↦ inl (Made-earlier _ h refl (simp (found, foreign) at made))
    ]
    | inr (e, failed) ↦ elim (Bool-cases e.is_not_found) [
      | inl absent ↦ inr (
        e,
        absent,
        simp (failed, absent) (Only-Logged _ _ (new_node_pool-keeping m k cr) (inl refl)),
      )
      | inr other ↦ inl (Made-earlier _ h refl (simp (failed, other) at made))
    ]
  ]

  -- The step of the etcd encryption key creates an object only after the API said that
  -- there is no secret of the key's name: a key that exists is never written over.
  pub etcd_key_generated_once :
      (cr : DpfHcpBridge) (h : Trace)
      → Made creates (generate_etcd_encryption_key m k cr h).1
      → Made creates h
        ⊎ ((e : ApiError) × (e.is_not_found ≡ true)
            × Logged
                (Call.get_secret
                  (record { namespace = cr.meta.namespace; name = etcd_key_name cr })
                  (err e))
                (generate_etcd_encryption_key m k cr h).1)
  unfolding generate_etcd_encryption_key ◌>>=◌ call on_reply pure
  etcd_key_generated_once cr h made =
      elim (Reply-cases
        (k.get_secret h (record { namespace = cr.meta.namespace; name = etcd_key_name cr }))) [
          | inl (o, found) ↦ elim (Bool-cases (m.is_controlled_by o.meta cr.meta)) [
            | inl owned ↦ inl (Made-earlier _ h refl (simp (found, owned) at made))
            | inr foreign ↦ inl (Made-earlier _ h refl (simp (found, foreign) at made))
          ]
          | inr (e, failed) ↦ elim (Bool-cases e.is_not_found) [
            | inl absent ↦ inr (
              e,
              absent,
              simp (failed, absent)
                  (Only-Logged _ _ (new_key-keeping m k (etcd_key_name cr) cr) (inl refl)),
            )
            | inr other ↦ inl (Made-earlier _ h refl (simp (failed, other) at made))
          ]
        ]
