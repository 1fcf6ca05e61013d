-- ===== src/Secrets.antt =====
-- The secrets validator, internal/controller/secrets/validator.go.
pub mod Accepted
pub mod Outcome
pub mod Again
use dpf_hcp_bridge_operator.Base.{String, [], ◌∷◌, is_some, lookup, if◌then◌else◌}
use dpf_hcp_bridge_operator.Base.Text.{sprintf}
use dpf_hcp_bridge_operator.Types.{
  DpfHcpBridge, Secret, NamespacedName, condition_true, condition_false, secrets_valid,
}
use dpf_hcp_bridge_operator.Platform.{
  Client, Meta, ApiError, Feature, pure, ◌>>=◌, on_reply, normal, warning, api, fail_requeue,
  get_secret,
}
use dpf_hcp_bridge_operator.Report.{report}

-- `SSHPublicKeySecretKey`, `PullSecretKey`
abbrev pub ssh_public_key_secret_key : String
ssh_public_key_secret_key = "id_rsa.pub"

abbrev pub pull_secret_key : String
pull_secret_key = ".dockerconfigjson"

module _ (m : Meta) (k : Client) where
  unfoldable pub handle_ssh_key_secret_missing : Feature
  handle_ssh_key_secret_missing cr =
      report m k warning secrets_valid condition_false "SSHKeySecretMissing"
        (sprintf (
          "SSH key secret '" ∷ cr.spec.ssh_key_secret_ref ∷ "' not found in namespace '"
          ∷ cr.meta.namespace ∷ "'" ∷ []))
        cr

  unfoldable pub handle_ssh_key_secret_invalid : Feature
  handle_ssh_key_secret_invalid cr =
      report m k warning secrets_valid condition_false "SSHKeySecretInvalid"
        (sprintf (
          "SSH key secret '" ∷ cr.spec.ssh_key_secret_ref ∷ "' is missing required key '"
          ∷ ssh_public_key_secret_key ∷ "'" ∷ []))
        cr

  unfoldable pub handle_pull_secret_missing : Feature
  handle_pull_secret_missing cr =
      report m k warning secrets_valid condition_false "PullSecretMissing"
        (sprintf (
          "Pull secret '" ∷ cr.spec.pull_secret_ref ∷ "' not found in namespace '"
          ∷ cr.meta.namespace ∷ "'" ∷ []))
        cr

  unfoldable pub handle_pull_secret_invalid : Feature
  handle_pull_secret_invalid cr =
      report m k warning secrets_valid condition_false "PullSecretInvalid"
        (sprintf (
          "Pull secret '" ∷ cr.spec.pull_secret_ref ∷ "' is missing required key '"
          ∷ pull_secret_key ∷ "'" ∷ []))
        cr

  unfoldable pub handle_secrets_access_denied : String → ApiError → Feature
  handle_secrets_access_denied secret_type e cr =
      report m k warning secrets_valid condition_false "SecretsAccessDenied"
        (sprintf (
          "Operator lacks RBAC permissions to access " ∷ secret_type ∷ " in namespace '"
          ∷ cr.meta.namespace ∷ "': " ∷ e.text ∷ []))
        cr

  unfoldable pub handle_secrets_valid : Feature
  handle_secrets_valid cr =
      report m k normal secrets_valid condition_true "SecretsValid"
        (sprintf (
          "Both SSH key secret '" ∷ cr.spec.ssh_key_secret_ref ∷ "' and pull secret '"
          ∷ cr.spec.pull_secret_ref ∷ "' are valid" ∷ []))
        cr

  -- The error branch of both fetches.
  unfoldable pub handle_fetch_error : Feature → String → ApiError → Feature
  handle_fetch_error handle_missing secret_type e cr =
      if e.is_not_found
      then handle_missing cr
      else if e.is_forbidden
      then handle_secrets_access_denied secret_type e cr
      else pure (cr, fail_requeue (api e))

  -- The second half of `ValidateSecrets`: the pull secret.
  unfoldable pub validate_pull_secret : Feature
  validate_pull_secret cr = do
    reply ← get_secret k (record { namespace = cr.meta.namespace; name = cr.spec.pull_secret_ref })
    on_reply reply
        (λ pull.
          if is_some (lookup pull_secret_key pull.content)
          then handle_secrets_valid cr
          else handle_pull_secret_invalid cr)
        (λ e. handle_fetch_error handle_pull_secret_missing "pull secret" e cr)

  unfoldable pub validate_secrets : Feature
  validate_secrets cr = do
    reply ←
        get_secret k (record { namespace = cr.meta.namespace; name = cr.spec.ssh_key_secret_ref })
    on_reply reply
        (λ ssh.
          if is_some (lookup ssh_public_key_secret_key ssh.content)
          then validate_pull_secret cr
          else handle_ssh_key_secret_invalid cr)
        (λ e. handle_fetch_error handle_ssh_key_secret_missing "SSH key secret" e cr)
