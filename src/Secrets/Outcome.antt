-- ===== src/Secrets/Outcome.antt =====
-- What a validation of the secrets leaves in the conditions, against the answers that it got.
use dpf_hcp_bridge_operator.Base.{
  String, Bool, true, false, some, ◌≡◌, refl, ◌==◌, arith, ◌⊎◌, inl, inr, is_some, Bool-cases,
  lookup,
}
use dpf_hcp_bridge_operator.Types.{
  DpfHcpBridge, Secret, ConditionStatus, condition_true, condition_false, NamespacedName,
  secrets_valid,
}
use dpf_hcp_bridge_operator.Platform.{
  Client, Meta, ApiError, Trace, Call, ConditionLaws, status_at, ok, Reply-cases, stops, ◌>>=◌,
  call, on_reply, pure, Feature, EventType,
}
use dpf_hcp_bridge_operator.Platform.Only.{Only, only_rules, Logged, Only-Logged, Only-weaken}
use dpf_hcp_bridge_operator.Report.{report_with}
use dpf_hcp_bridge_operator.Report.Laws.{StatusEcho, seen-report, reporting, report-Only}
use dpf_hcp_bridge_operator.Report.Framed.{Framed, framed_rules, report-Framed}
use dpf_hcp_bridge_operator.Secrets.{
  ssh_public_key_secret_key, pull_secret_key, handle_ssh_key_secret_missing,
  handle_ssh_key_secret_invalid, handle_pull_secret_missing, handle_pull_secret_invalid,
  handle_secrets_access_denied, handle_secrets_valid, handle_fetch_error, validate_pull_secret,
  validate_secrets,
}

-- The calls of the validator.
abbrev pub reading_secrets : Call → Bool
reading_secrets (Call.get_secret key r) = true
reading_secrets c = reporting c

reporting→reading_secrets : (c : Call) → reporting c ≡ true → reading_secrets c ≡ true
reporting→reading_secrets c h = ground arith

reports-Only :
    (m : Meta) (k : Client) (event_type : EventType) (kind : String) (status : ConditionStatus)
    (reason message event_message : String) (cr : DpfHcpBridge)
    → Only reading_secrets (report_with m k event_type kind status reason message event_message cr)
reports-Only m k t kind status reason message event_message cr =
    Only-weaken reporting→reading_secrets
      (report-Only m k t kind status reason message event_message cr)

-- A validation calls only to read secrets and the clock, to emit events, and to store the status of
-- the bridge, whatever the answers are.
pub validate_secrets-Only :
    (m : Meta) (k : Client) (cr : DpfHcpBridge) → Only reading_secrets (validate_secrets m k cr)
unfolding validate_secrets validate_pull_secret handle_fetch_error handle_ssh_key_secret_missing
    handle_ssh_key_secret_invalid handle_pull_secret_missing handle_pull_secret_invalid
    handle_secrets_access_denied handle_secrets_valid
validate_secrets-Only m k cr = search (only_rules, reports-Only) depth 16

abbrev pub ssh_key : DpfHcpBridge → NamespacedName
ssh_key cr = record { namespace = cr.meta.namespace; name = cr.spec.ssh_key_secret_ref }

abbrev pub pull_key : DpfHcpBridge → NamespacedName
pull_key cr = record { namespace = cr.meta.namespace; name = cr.spec.pull_secret_ref }

-- A secret with a value under the key was fetched.
pub record Fetched (at : NamespacedName) (key : String) (t : Trace) : Type 0 where
  pub secret : Secret
  pub answer : Logged (Call.get_secret at (ok secret)) t
  pub has_key : is_some (lookup key secret.content) ≡ true

-- A validation that goes on has set SecretsValid: to False, or to True after both secrets were
-- fetched with their keys.
abbrev pub Verdict : Meta → DpfHcpBridge → DpfHcpBridge → Trace → Type 0
Verdict m cr cr' t =
    (status_at m cr'.status.conditions secrets_valid ≡ some condition_false)
    ⊎ ((status_at m cr'.status.conditions secrets_valid ≡ some condition_true)
        × Fetched (ssh_key cr) ssh_public_key_secret_key t
        × Fetched (pull_key cr) pull_secret_key t)

module _ {m : Meta} {k : Client} (laws : ConditionLaws m) (e : StatusEcho k) where
  fetch_error-Verdict :
      (handle_missing : Feature) (secret_type : String) (x : ApiError) (cr : DpfHcpBridge)
      (h : Trace)
      → (status_at m (handle_missing cr h).0.0.status.conditions secrets_valid
          ≡ some condition_false)
      → stops (handle_fetch_error m k handle_missing secret_type x cr h).0.1 ≡ false
      → Verdict m cr
          (handle_fetch_error m k handle_missing secret_type x cr h).0.0
          (handle_fetch_error m k handle_missing secret_type x cr h).1
  unfolding handle_fetch_error handle_secrets_access_denied pure
  fetch_error-Verdict handle_missing secret_type x cr h missing on =
      elim (Bool-cases x.is_not_found) [
        | inl gone ↦ simp gone (inl missing)
        | inr there ↦ simp there (elim (Bool-cases x.is_forbidden) [
          | inl denied ↦ simp denied (inl (rw (seen-report laws e) refl))
          | inr other ↦ cc (simp (there, other) at on)
        ])
      ]

  pull-Verdict :
      (cr : DpfHcpBridge) (h : Trace)
      → Fetched (ssh_key cr) ssh_public_key_secret_key h
      → stops (validate_pull_secret m k cr h).0.1 ≡ false
      → Verdict m cr (validate_pull_secret m k cr h).0.0 (validate_pull_secret m k cr h).1
  unfolding validate_pull_secret handle_secrets_valid handle_pull_secret_invalid
      handle_pull_secret_missing ◌>>=◌ call on_reply
  pull-Verdict cr h ssh on = elim (Reply-cases (k.get_secret h (pull_key cr))) [
    | inr (x, failed) ↦ rw failed (
        fetch_error-Verdict _ "pull secret" x cr _ (rw (seen-report laws e) refl) (rw failed at on))
    | inl (s, got) ↦ rw got (elim (Bool-cases (is_some (lookup pull_secret_key s.content))) [
      | inr bad ↦ rw bad (inl (rw (seen-report laws e) refl))
      | inl good ↦ rw good (
          inr (
            rw (seen-report laws e) refl,
            record {
              secret = ssh.secret;
              answer = Only-Logged _ _ (report-Only m k _ _ _ _ _ _ cr) (inr ssh.answer);
              has_key = ssh.has_key;
            },
            record {
              secret = s;
              answer = Only-Logged _ _ (report-Only m k _ _ _ _ _ _ cr) (inl refl);
              has_key = good;
            },
          ))
    ])
  ]

  -- Where the conditions behave as documented and the server stores the status that it is sent: a
  -- validation that lets the reconciliation go on leaves SecretsValid False, or leaves it True after
  -- both secrets of the bridge were fetched, each with a value under its key.
  pub validate_secrets-Verdict :
      (cr : DpfHcpBridge) (h : Trace)
      → stops (validate_secrets m k cr h).0.1 ≡ false
      → Verdict m cr (validate_secrets m k cr h).0.0 (validate_secrets m k cr h).1
  unfolding validate_secrets handle_ssh_key_secret_missing handle_ssh_key_secret_invalid ◌>>=◌ call
      on_reply
  validate_secrets-Verdict cr h on = elim (Reply-cases (k.get_secret h (ssh_key cr))) [
    | inr (x, failed) ↦ rw failed (
        fetch_error-Verdict _ "SSH key secret" x cr _ (rw (seen-report laws e) refl)
          (rw failed at on))
    | inl (s, got) ↦
        rw got (elim (Bool-cases (is_some (lookup ssh_public_key_secret_key s.content))) [
          | inr bad ↦ rw bad (inl (rw (seen-report laws e) refl))
          | inl good ↦ rw good (
              pull-Verdict cr _ (record { secret = s; answer = inl refl; has_key = good })
                (rw (got, good) at on))
        ])
  ]

  pub validate_secrets-Framed :
      (cr : DpfHcpBridge) → Framed m (λ x. secrets_valid == x) cr (validate_secrets m k cr)
  unfolding validate_secrets validate_pull_secret handle_fetch_error handle_ssh_key_secret_missing
      handle_ssh_key_secret_invalid handle_pull_secret_missing handle_pull_secret_invalid
      handle_secrets_access_denied handle_secrets_valid
  validate_secrets-Framed cr = search (framed_rules, report-Framed laws e) depth 16
