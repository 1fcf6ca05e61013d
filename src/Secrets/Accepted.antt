-- ===== src/Secrets/Accepted.antt =====
-- What the validation of the secrets leaves, where both have their keys.
use dpf_hcp_bridge_operator.Base.{true, some, ◌≡◌, refl, is_some, lookup, ◌∷◌}
use dpf_hcp_bridge_operator.Types.{DpfHcpBridge, Secret, condition_true, secrets_valid}
use dpf_hcp_bridge_operator.Platform.{
  Client, Meta, Trace, Call, ConditionLaws, status_at, ok, done, ◌>>=◌, call, on_reply,
}
use dpf_hcp_bridge_operator.Platform.Only.{Grows, same, more}
use dpf_hcp_bridge_operator.Report.Laws.{StatusEcho, seen-report}
use dpf_hcp_bridge_operator.Report.Stored.{report-done}
use dpf_hcp_bridge_operator.Secrets.{
  ssh_public_key_secret_key, pull_secret_key, validate_pull_secret, handle_secrets_valid,
  validate_secrets,
}
use dpf_hcp_bridge_operator.Secrets.Outcome.{reading_secrets, ssh_key, pull_key}

-- The server has both secrets of the bridge, each with a value under its key.
pub record Readable (k : Client) (cr : DpfHcpBridge) (h : Trace) : Type 0 where
  pub ssh : Secret
  pub ssh_fetched : k.get_secret h (ssh_key cr) ≡ ok ssh
  pub ssh_has_key : is_some (lookup ssh_public_key_secret_key ssh.content) ≡ true
  pub pull : Secret
  pub pull_fetched :
      (t : Trace) → Grows reading_secrets h t → k.get_secret t (pull_key cr) ≡ ok pull
  pub pull_has_key : is_some (lookup pull_secret_key pull.content) ≡ true

module _ {m : Meta} {k : Client} (laws : ConditionLaws m) (e : StatusEcho k)
    (stored : (t : Trace) (b : DpfHcpBridge) → k.update_bridge_status t b ≡ ok b) where
  pub validate_secrets-Accepted :
      (cr : DpfHcpBridge) (h : Trace)
      → Readable k cr h
      → let r = validate_secrets m k cr h in
        (r.0.1 ≡ done) × (status_at m r.0.0.status.conditions secrets_valid ≡ some condition_true)
  unfolding validate_secrets validate_pull_secret handle_secrets_valid ◌>>=◌ call on_reply
  validate_secrets-Accepted cr h a =
      let h' : Trace = Call.get_secret (ssh_key cr) (ok a.ssh) ∷ h in
      rw (a.ssh_fetched, a.ssh_has_key, a.pull_fetched h' (more _ refl same), a.pull_has_key)
        (report-done m k stored _ _ _ _ _ _ cr _, rw (seen-report laws e) refl)
