-- ===== src/Secrets/Again.antt =====
-- The validation of the secrets when it runs again, while the server answers for secrets as before.
use dpf_hcp_bridge_operator.Base.{
  String, true, ◌==◌, ◌∷◌, ◌∙◌, ◌≡◌, refl, inl, inr, is_some, lookup, Bool-cases,
}
use dpf_hcp_bridge_operator.Types.{DpfHcpBridge, secrets_valid, Secret, NamespacedName}
use dpf_hcp_bridge_operator.Platform.{
  Client, Meta, Trace, Call, Reply, ApiError, ConditionLaws, ok, err, Reply-cases, Feature, ◌>>=◌,
  call, on_reply, pure,
}
use dpf_hcp_bridge_operator.Platform.Only.{same, more}
use dpf_hcp_bridge_operator.Report.Laws.{StatusEcho, Frame}
use dpf_hcp_bridge_operator.Report.Events.{Again, Again-as, handler-Again}
use dpf_hcp_bridge_operator.Secrets.{
  ssh_public_key_secret_key, pull_secret_key, handle_ssh_key_secret_missing,
  handle_ssh_key_secret_invalid, handle_pull_secret_missing, handle_pull_secret_invalid,
  handle_secrets_access_denied, handle_secrets_valid, handle_fetch_error, validate_pull_secret,
  validate_secrets,
}
use dpf_hcp_bridge_operator.Secrets.Outcome.{ssh_key, pull_key, validate_secrets-Framed}

module _ {m : Meta} {k : Client} (laws : ConditionLaws m) (e : StatusEcho k) where
  denied-Again :
      (text : String) (x : ApiError) (cr : DpfHcpBridge) (h t : Trace)
      → Again m (handle_secrets_access_denied m k text x) cr h t
  unfolding handle_secrets_access_denied
  denied-Again text x cr h t =
      handler-Again laws e (handle_secrets_access_denied m k text x) (λ b. b) _ _ _ _ _ _
        (λ b u. (refl, refl)) cr (λ cs. (refl, refl)) h t

  ssh_missing-Again :
      (cr : DpfHcpBridge) (h t : Trace) → Again m (handle_ssh_key_secret_missing m k) cr h t
  unfolding handle_ssh_key_secret_missing
  ssh_missing-Again cr h t =
      handler-Again laws e (handle_ssh_key_secret_missing m k) (λ b. b) _ _ _ _ _ _
        (λ b u. (refl, refl)) cr (λ cs. (refl, refl)) h t

  ssh_invalid-Again :
      (cr : DpfHcpBridge) (h t : Trace) → Again m (handle_ssh_key_secret_invalid m k) cr h t
  unfolding handle_ssh_key_secret_invalid
  ssh_invalid-Again cr h t =
      handler-Again laws e (handle_ssh_key_secret_invalid m k) (λ b. b) _ _ _ _ _ _
        (λ b u. (refl, refl)) cr (λ cs. (refl, refl)) h t

  pull_missing-Again :
      (cr : DpfHcpBridge) (h t : Trace) → Again m (handle_pull_secret_missing m k) cr h t
  unfolding handle_pull_secret_missing
  pull_missing-Again cr h t =
      handler-Again laws e (handle_pull_secret_missing m k) (λ b. b) _ _ _ _ _ _
        (λ b u. (refl, refl)) cr (λ cs. (refl, refl)) h t

  pull_invalid-Again :
      (cr : DpfHcpBridge) (h t : Trace) → Again m (handle_pull_secret_invalid m k) cr h t
  unfolding handle_pull_secret_invalid
  pull_invalid-Again cr h t =
      handler-Again laws e (handle_pull_secret_invalid m k) (λ b. b) _ _ _ _ _ _
        (λ b u. (refl, refl)) cr (λ cs. (refl, refl)) h t

  valid-Again : (cr : DpfHcpBridge) (h t : Trace) → Again m (handle_secrets_valid m k) cr h t
  unfolding handle_secrets_valid
  valid-Again cr h t =
      handler-Again laws e (handle_secrets_valid m k) (λ b. b) _ _ _ _ _ _ (λ b u. (refl, refl)) cr
        (λ cs. (refl, refl)) h t

  fetch_error-Again :
      (missing : Feature) (text : String) (x : ApiError) (cr : DpfHcpBridge) (h t : Trace)
      → Again m missing cr h t
      → Again m (handle_fetch_error m k missing text x) cr h t
  unfolding handle_fetch_error pure
  fetch_error-Again missing text x cr h t again = elim (Bool-cases x.is_not_found) [
    | inl gone ↦ simp gone again
    | inr there ↦ simp there (elim (Bool-cases x.is_forbidden) [
      | inl denied ↦ simp denied (denied-Again text x cr h t)
      | inr other ↦ simp other (record { no_event = same; kept = λ y. refl })
    ])
  ]

  framed :
      (cr : DpfHcpBridge) (h : Trace)
      → Frame m (λ x. secrets_valid == x) cr (validate_secrets m k cr h).0.0
  framed cr h = (validate_secrets-Framed laws e cr).at h

  module _ (read : NamespacedName → Reply Secret)
      (unchanging : (u : Trace) (key : NamespacedName) → k.get_secret u key ≡ read key) where
    -- The secret of the SSH key is there with its key, and the pull secret decides.
    pull-Again :
        (cr : DpfHcpBridge) (ssh : Secret)
        → read (ssh_key cr) ≡ ok ssh
        → is_some (lookup ssh_public_key_secret_key ssh.content) ≡ true
        → (h t : Trace) → Again m (validate_secrets m k) cr h t
    unfolding validate_secrets validate_pull_secret ◌>>=◌ call on_reply
    pull-Again cr ssh got good =
        let ssh_call : Call = Call.get_secret (ssh_key cr) (ok ssh) in
        let first = λ (u : Trace). unchanging u (ssh_key cr) ∙ got in
        let second = λ (u : Trace). unchanging (ssh_call ∷ u) (pull_key cr) in
        elim (Reply-cases (read (pull_key cr))) [
          | inr (x, failed) ↦
              Again-as (validate_secrets m k)
                (handle_fetch_error m k (handle_pull_secret_missing m k) "pull secret" x)
                (λ u. Call.get_secret (pull_key cr) (err x) ∷ ssh_call ∷ u) cr (framed cr)
                (λ u. more _ refl (more _ refl same))
                (λ s u. rw (first u) (rw good (rw (second u ∙ failed) refl)))
                (λ h t. fetch_error-Again _ _ x cr h t (pull_missing-Again cr h t))
          | inl (pull, fetched) ↦
              let steps : Trace → Trace =
                λ u. Call.get_secret (pull_key cr) (ok pull) ∷ ssh_call ∷ u in
              elim (Bool-cases (is_some (lookup pull_secret_key pull.content))) [
                | inr bad ↦
                    Again-as (validate_secrets m k) (handle_pull_secret_invalid m k) steps cr
                      (framed cr) (λ u. more _ refl (more _ refl same))
                      (λ s u. rw (first u) (rw good (rw (second u ∙ fetched) (rw bad refl))))
                      (pull_invalid-Again cr)
                | inl has_key ↦
                    Again-as (validate_secrets m k) (handle_secrets_valid m k) steps cr (framed cr)
                      (λ u. more _ refl (more _ refl same))
                      (λ s u. rw (first u) (rw good (rw (second u ∙ fetched) (rw has_key refl))))
                      (valid-Again cr)
              ]
        ]

    -- Where the conditions behave as documented, a status update that succeeds returns what was sent,
    -- and the server gives the same answer for each secret at all times: a validation of the secrets
    -- that runs again, on the bridge that a validation left, emits no event and leaves every condition
    -- as a reader saw it, whatever the answers for the secrets are.
    pub validate_secrets-Again :
        (cr : DpfHcpBridge) (h t : Trace) → Again m (validate_secrets m k) cr h t
    unfolding validate_secrets ◌>>=◌ call on_reply
    validate_secrets-Again cr = elim (Reply-cases (read (ssh_key cr))) [
      | inr (x, failed) ↦
          Again-as (validate_secrets m k)
            (handle_fetch_error m k (handle_ssh_key_secret_missing m k) "SSH key secret" x)
            (λ u. Call.get_secret (ssh_key cr) (err x) ∷ u) cr (framed cr) (λ u. more _ refl same)
            (λ s u. rw (unchanging u (ssh_key cr) ∙ failed) refl)
            (λ h t. fetch_error-Again _ _ x cr h t (ssh_missing-Again cr h t))
      | inl (ssh, got) ↦
          elim (Bool-cases (is_some (lookup ssh_public_key_secret_key ssh.content))) [
            | inr bad ↦
                Again-as (validate_secrets m k) (handle_ssh_key_secret_invalid m k)
                  (λ u. Call.get_secret (ssh_key cr) (ok ssh) ∷ u) cr (framed cr)
                  (λ u. more _ refl same)
                  (λ s u. rw (unchanging u (ssh_key cr) ∙ got) (rw bad refl)) (ssh_invalid-Again cr)
            | inl good ↦ pull-Again cr ssh got good
          ]
    ]
