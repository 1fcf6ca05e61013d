-- ===== src/HostedCluster/KeyAndPool.antt =====
-- What the creation of the etcd encryption key and of the NodePool have done where they go on.
use dpf_hcp_bridge_operator.Base.{
  String, false, some, ◌≡◌, refl, inl, inr, Option-cases, ℕ, List, [], ◌∷◌,
}
use dpf_hcp_bridge_operator.Types.{DpfHcpBridge, NodePool, Secret, key_of, opaque}
use dpf_hcp_bridge_operator.Platform.{
  Client, Meta, Call, Trace, ok, Reply-cases, ◌>>=◌, call, on_reply, on_option, pure, stops, done,
}
use dpf_hcp_bridge_operator.Platform.Only.{Only-Logged, Logged, Keeps}
use dpf_hcp_bridge_operator.HostedCluster.Held.{
  Stored, Held, create-Stored, ensure-Held, Stored-later,
}
use dpf_hcp_bridge_operator.HostedCluster.Creations.{
  stopped, storing, new_node_pool-keeping, new_key-keeping, owned_secret-keeping,
  create_owned_secret-Stored,
}
use dpf_hcp_bridge_operator.HostedCluster.SecretManager.{
  new_meta, create_owned_secret, aescbc_key_secret_key, etcd_key_name, generate_new_key,
  generate_etcd_encryption_key,
}
use dpf_hcp_bridge_operator.HostedCluster.NodePools.{
  build_node_pool, create_new_node_pool, create_node_pool_once,
}

-- A NodePool that is new: no replicas yet, of the HostedCluster of its name and of the bridge's release.
abbrev pub NewNodePool : Meta → DpfHcpBridge → Trace → Type 0
NewNodePool m cr t =
    Stored m cr (new_meta cr.meta.name cr.meta.namespace)
      (λ meta r.
        Call.create_node_pool
          (record {
            meta = meta;
            spec = record {
              cluster_name = cr.meta.name;
              replicas = some 0;
              upgrade_type = "Replace";
              platform = "None";
              release_image = cr.spec.ocp_release_image;
            };
          })
          r)
      t

-- The NodePool of a bridge.
abbrev pub HeldNodePool : Meta → DpfHcpBridge → Trace → Type 0
HeldNodePool m cr t =
    Held m cr (λ (x : NodePool). x.meta) (λ r. Call.get_node_pool (key_of cr.meta) r)
      (NewNodePool m cr) t

-- An etcd encryption key that is new: of 32 random bytes.
pub record Generated (m : Meta) (cr : DpfHcpBridge) (secret_name : String) (t : Trace)
    : Type 0 where
  pub key_bytes : List ℕ
  pub random : Logged (Call.read_random 32 (ok key_bytes)) t
  pub stored :
      Stored m cr
        (new_meta secret_name cr.meta.namespace)
        (storing (record {
          meta = new_meta secret_name cr.meta.namespace;
          kind = opaque;
          content = (aescbc_key_secret_key, key_bytes) ∷ [];
        }))
        t

-- The etcd encryption key of a bridge.
abbrev pub HeldKey : Meta → DpfHcpBridge → Trace → Type 0
HeldKey m cr t =
    Held m cr (λ (x : Secret). x.meta)
      (λ r. Call.get_secret (record { namespace = cr.meta.namespace; name = etcd_key_name cr }) r)
      (Generated m cr (etcd_key_name cr)) t

pub Generated-later :
    {m : Meta} {cr : DpfHcpBridge} {secret_name : String} {t u : Trace}
    → Keeps t u
    → Generated m cr secret_name t
    → Generated m cr secret_name u
Generated-later keeps g = record {
  key_bytes = g.key_bytes;
  random = keeps.call _ g.random;
  stored = Stored-later keeps g.stored;
}

module _ (m : Meta) (k : Client) where
  create_new_node_pool-Stored :
      (cr : DpfHcpBridge) (h : Trace)
      → stopped (create_new_node_pool m k cr h).0 ≡ false
      → Stored m cr
          (new_meta cr.meta.name cr.meta.namespace)
          (λ meta r. Call.create_node_pool (record (build_node_pool cr) { meta = meta }) r)
          (create_new_node_pool m k cr h).1
  unfolding create_new_node_pool build_node_pool
  create_new_node_pool-Stored cr h goes_on =
      create-Stored m cr stopped (new_meta cr.meta.name cr.meta.namespace)
        (λ meta t. k.create_node_pool t (record (build_node_pool cr) { meta = meta })) _ (cr, done)
        _ _ h (λ e. refl) (λ e. refl) goes_on

  pub create_node_pool_once-Held :
      (cr : DpfHcpBridge) (h : Trace)
      → stops (create_node_pool_once m k cr h).0.1 ≡ false
      → HeldNodePool m cr (create_node_pool_once m k cr h).1
  unfolding create_node_pool_once build_node_pool
  create_node_pool_once-Held cr h goes_on =
      ensure-Held m cr stopped (λ t. k.get_node_pool t (key_of cr.meta)) _ (λ o. o.meta)
        (NewNodePool m cr) (cr, done) _ _ (create_new_node_pool m k cr) h (λ o. refl) (λ e. refl)
        (new_node_pool-keeping m k cr) (λ t on. create_new_node_pool-Stored cr t on) goes_on

  generate_new_key-Generated :
      (secret_name : String) (cr : DpfHcpBridge) (h : Trace)
      → stopped (generate_new_key m k secret_name cr h).0 ≡ false
      → Generated m cr secret_name (generate_new_key m k secret_name cr h).1
  unfolding generate_new_key ◌>>=◌ call on_reply on_option pure
  generate_new_key-Generated secret_name cr h goes_on = elim (Reply-cases (k.read_random h 32)) [
    | inr (e, failed) ↦ cc (rw failed at goes_on)
    | inl (key_bytes, got) ↦
        let h' : Trace = Call.read_random 32 (ok key_bytes) ∷ h in
        let s : Secret = record {
          meta = new_meta secret_name cr.meta.namespace;
          kind = opaque;
          content = (aescbc_key_secret_key, key_bytes) ∷ [];
        } in
        let what : String = "etcd encryption key" in
        let created : String = "etcd encryption key secret" in
        elim (Option-cases (create_owned_secret m k what created s cr h').0) [
          | inr (x, failed) ↦ cc (simp (got, failed) at goes_on)
          | inl complete ↦
              simp (got, complete)
                (record {
                  key_bytes = key_bytes;
                  random = Only-Logged _ h' (owned_secret-keeping m k what created s cr) (inl refl);
                  stored = create_owned_secret-Stored m k what created s cr h' complete;
                })
        ]
  ]

  pub generate_etcd_encryption_key-Held :
      (cr : DpfHcpBridge) (h : Trace)
      → stops (generate_etcd_encryption_key m k cr h).0.1 ≡ false
      → HeldKey m cr (generate_etcd_encryption_key m k cr h).1
  unfolding generate_etcd_encryption_key
  generate_etcd_encryption_key-Held cr h goes_on =
      ensure-Held m cr stopped (λ t. k.get_secret t _) _ (λ o. o.meta)
        (Generated m cr (etcd_key_name cr)) (cr, done) _ _
        (generate_new_key m k (etcd_key_name cr) cr) h (λ o. refl) (λ e. refl)
        (new_key-keeping m k (etcd_key_name cr) cr)
        (λ t on. generate_new_key-Generated (etcd_key_name cr) cr t on) goes_on
