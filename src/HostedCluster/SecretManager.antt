-- ===== src/HostedCluster/SecretManager.antt =====
-- internal/controller/hostedcluster/secrets.go
use dpf_hcp_bridge_operator.Base.{String, Option, none, some, [], ◌∷◌, if◌then◌else◌}
use dpf_hcp_bridge_operator.Base.Text.{sprintf, append}
use dpf_hcp_bridge_operator.Types.{DpfHcpBridge, ObjectMeta, Secret, docker_config_json, opaque}
use dpf_hcp_bridge_operator.Platform.{
  Client, Meta, Action, Feature, Failure, wrapped, errorf, api, pure, ◌>>=◌, on_reply, on_option,
  done, fail, get_secret, create_secret, read_random,
}

-- The metadata of a new object.
abbrev pub new_meta : String → String → ObjectMeta
new_meta name namespace = record {
  name = name;
  namespace = namespace;
  uid = "";
  generation = 0;
  deletion_timestamp = none;
  finalizers = [];
  labels = [];
  owner_references = [];
}

-- `hyperv1.AESCBCKeySecretKey`
abbrev pub aescbc_key_secret_key : String
aescbc_key_secret_key = "key"

unfoldable pub pull_secret_name : DpfHcpBridge → String
pull_secret_name cr = append cr.meta.name "-pull-secret"

unfoldable pub ssh_key_name : DpfHcpBridge → String
ssh_key_name cr = append cr.meta.name "-ssh-key"

unfoldable pub etcd_key_name : DpfHcpBridge → String
etcd_key_name cr = append cr.meta.name "-etcd-encryption-key"

module _ (m : Meta) (k : Client) where
  -- The end of each creation: the owner reference, and the call. `what` is the object's name in the
  -- errors.
  unfoldable pub create_owned_secret :
      String → String → Secret → DpfHcpBridge → Action (Option Failure)
  create_owned_secret what created secret cr =
      on_reply (m.set_controller_reference cr.meta secret.meta)
        (λ meta. do
          reply ← create_secret k (record secret { meta = meta })
          on_reply reply (λ u. pure none)
              (λ e. pure (some (wrapped (append "failed to create " created) (api e)))))
        (λ e. pure (some (wrapped (append "failed to set owner reference on " what) (api e))))

  unfoldable pub copy_pull_secret : String → DpfHcpBridge → Action (Option Failure)
  copy_pull_secret target_name cr = do
    source ← get_secret k (record { namespace = cr.meta.namespace; name = cr.spec.pull_secret_ref })
    on_reply source
        (λ source_secret. do
          existing ← get_secret k (record { namespace = cr.meta.namespace; name = target_name })
          on_reply existing
              (λ existing_secret.
                if m.is_controlled_by existing_secret.meta cr.meta
                then pure none
                else pure (
                    some (
                      errorf (
                        sprintf (
                          "pull-secret " ∷ target_name ∷ " exists in " ∷ cr.meta.namespace
                          ∷ " but is owned by different DPFHCPBridge" ∷ [])))))
              (λ e.
                if e.is_not_found
                then create_owned_secret "pull-secret" "pull-secret"
                    (record {
                      meta = new_meta target_name cr.meta.namespace;
                      kind = docker_config_json;
                      content = source_secret.content;
                    })
                    cr
                else pure (some (wrapped "failed to check existing pull-secret" (api e)))))
        (λ e. pure (
          some (
            wrapped
              (sprintf (
                "failed to get pull-secret " ∷ cr.meta.namespace ∷ "/" ∷ cr.spec.pull_secret_ref
                ∷ []))
              (api e))))

  unfoldable pub copy_ssh_key : String → DpfHcpBridge → Action (Option Failure)
  copy_ssh_key target_name cr = do
    source ←
        get_secret k (record { namespace = cr.meta.namespace; name = cr.spec.ssh_key_secret_ref })
    on_reply source
        (λ source_secret. do
          existing ← get_secret k (record { namespace = cr.meta.namespace; name = target_name })
          on_reply existing
              (λ existing_secret.
                if m.is_controlled_by existing_secret.meta cr.meta
                then pure none
                else pure (
                    some (
                      errorf (
                        sprintf (
                          "ssh-key " ∷ target_name ∷ " exists in " ∷ cr.meta.namespace
                          ∷ " but is owned by different DPFHCPBridge" ∷ [])))))
              (λ e.
                if e.is_not_found
                then create_owned_secret "ssh-key" "ssh-key"
                    (record {
                      meta = new_meta target_name cr.meta.namespace;
                      kind = opaque;
                      content = source_secret.content;
                    })
                    cr
                else pure (some (wrapped "failed to check existing ssh-key" (api e)))))
        (λ e. pure (
          some (
            wrapped
              (sprintf (
                "failed to get ssh-key " ∷ cr.meta.namespace ∷ "/" ∷ cr.spec.ssh_key_secret_ref
                ∷ []))
              (api e))))

  unfoldable pub copy_secrets : Feature
  copy_secrets cr = do
    pull ← copy_pull_secret (pull_secret_name cr) cr
    on_option pull (λ x. pure (cr, fail x))
        (do
          ssh ← copy_ssh_key (ssh_key_name cr) cr
          on_option ssh (λ x. pure (cr, fail x)) (pure (cr, done)))

  -- The branch for a key that does not exist yet.
  unfoldable pub generate_new_key : String → Feature
  generate_new_key secret_name cr = do
    random ← read_random k 32
    on_reply random
        (λ key_bytes. do
          created ←
              create_owned_secret "etcd encryption key" "etcd encryption key secret"
                (record {
                  meta = new_meta secret_name cr.meta.namespace;
                  kind = opaque;
                  content = (aescbc_key_secret_key, key_bytes) ∷ [];
                })
                cr
          on_option created (λ x. pure (cr, fail x)) (pure (cr, done)))
        (λ x. pure (cr, fail (wrapped "failed to generate random encryption key" (api x))))

  unfoldable pub generate_etcd_encryption_key : Feature
  generate_etcd_encryption_key cr = do
    let secret_name = etcd_key_name cr
    existing ← get_secret k (record { namespace = cr.meta.namespace; name = secret_name })
    on_reply existing
        (λ existing_secret.
          if m.is_controlled_by existing_secret.meta cr.meta
          then pure (cr, done)
          else pure (
            cr,
            fail (
                errorf (
                  sprintf (
                    "etcd encryption key " ∷ secret_name ∷ " exists in " ∷ cr.meta.namespace
                    ∷ " but is owned by different DPFHCPBridge" ∷ []))),
          ))
        (λ e.
          if e.is_not_found
          then generate_new_key secret_name cr
          else pure (cr, fail (wrapped "failed to check existing etcd encryption key" (api e))))
