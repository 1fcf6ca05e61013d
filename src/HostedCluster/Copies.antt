-- ===== src/HostedCluster/Copies.antt =====
-- What `CopySecrets` and `GenerateETCDEncryptionKey` of internal/controller/hostedcluster/secrets.go have
-- done where they go on.
use dpf_hcp_bridge_operator.Base.{
  String, false, Option, none, some, ◌≡◌, refl, is_some, ap, if◌then◌else◌, inl, inr, Option-cases,
  ◌∷◌,
}
use dpf_hcp_bridge_operator.Types.{
  DpfHcpBridge, Secret, SecretType, NamespacedName, key_of, opaque, docker_config_json,
}
use dpf_hcp_bridge_operator.Platform.{
  Client, Meta, Call, Trace, Action, Failure, ApiError, get_secret, ok, Reply-cases, ◌>>=◌, call,
  on_reply, on_option, pure, stops,
}
use dpf_hcp_bridge_operator.Platform.Only.{Only, only_rules, Only-Logged, Logged, Keeps, Only-Keeps}
use dpf_hcp_bridge_operator.HostedCluster.Held.{
  keeping, Held, Stored, Stored-later, ensure-Held, Held-later,
}
use dpf_hcp_bridge_operator.HostedCluster.Creations.{
  storing, owned_secret-keeping, create_owned_secret-Stored,
}
use dpf_hcp_bridge_operator.HostedCluster.SecretManager.{
  create_owned_secret, new_meta, copy_pull_secret, copy_ssh_key, copy_secrets, pull_secret_name,
  ssh_key_name,
}

-- A secret of the name that the bridge controls was found, or there was none and the API stored the
-- given one, with the bridge as its controller.
abbrev pub HeldSecret : Meta → DpfHcpBridge → Secret → Trace → Type 0
HeldSecret m cr s t =
    Held m cr (λ (x : Secret). x.meta) (λ r. Call.get_secret (key_of s.meta) r)
      (Stored m cr s.meta (storing s)) t

-- The copy of a secret under another name.
abbrev pub target_of : String → SecretType → DpfHcpBridge → Secret → Secret
target_of target_name kind cr source = record {
  meta = new_meta target_name cr.meta.namespace;
  kind = kind;
  content = source.content;
}

-- The secret `source_name` was read, and a secret `target_name` in the same namespace is held, which
-- has the kind and the content of the source if it is new.
pub record Copied (m : Meta) (cr : DpfHcpBridge) (source_name target_name : String)
    (kind : SecretType) (t : Trace) : Type 0 where
  pub source : Secret
  pub read :
      Logged
        (Call.get_secret (record { namespace = cr.meta.namespace; name = source_name }) (ok source))
        t
  pub held : HeldSecret m cr (target_of target_name kind cr source) t

-- Both secrets of the bridge.
abbrev pub SecretsCopied : Meta → DpfHcpBridge → Trace → Type 0
SecretsCopied m cr t =
    Copied m cr cr.spec.pull_secret_ref (pull_secret_name cr) docker_config_json t
    × Copied m cr cr.spec.ssh_key_secret_ref (ssh_key_name cr) opaque t

pub Copied-later :
    {m : Meta} {cr : DpfHcpBridge} {source_name target_name : String} {kind : SecretType}
    {t u : Trace}
    → Keeps t u
    → Copied m cr source_name target_name kind t
    → Copied m cr source_name target_name kind u
Copied-later keeps c = record {
  source = c.source;
  read = keeps.call _ c.read;
  held = Held-later keeps (Stored-later keeps) c.held;
}

no_failure : (o : Option Failure) → is_some o ≡ false → o ≡ none
no_failure none e = refl
no_failure (some x) e = absurd (cc e)

module _ (m : Meta) (k : Client) where
  -- What both copies do behind the fetch of the source.
  abbrev pub ensuring :
      String
      → String
      → Secret
      → DpfHcpBridge
      → (Secret → Failure)
      → (ApiError → Failure)
      → Action (Option Failure)
  ensuring what created s cr foreign broken = do
    existing ← get_secret k (key_of s.meta)
    on_reply existing
        (λ o. if m.is_controlled_by o.meta cr.meta then pure none else pure (some (foreign o)))
        (λ e.
          if e.is_not_found
          then create_owned_secret m k what created s cr
          else pure (some (broken e)))

  ensuring-keeping :
      (what created : String) (s : Secret) (cr : DpfHcpBridge) (foreign : Secret → Failure)
      (broken : ApiError → Failure)
      → Only keeping (ensuring what created s cr foreign broken)
  ensuring-keeping what created s cr foreign broken =
      search (only_rules, owned_secret-keeping) depth 16

  ensuring-HeldSecret :
      (what created : String) (s : Secret) (cr : DpfHcpBridge) (foreign : Secret → Failure)
      (broken : ApiError → Failure) (h : Trace)
      → (ensuring what created s cr foreign broken h).0 ≡ none
      → HeldSecret m cr s (ensuring what created s cr foreign broken h).1
  ensuring-HeldSecret what created s cr foreign broken h complete =
      ensure-Held m cr is_some (λ t. k.get_secret t (key_of s.meta)) _ (λ o. o.meta)
        (Stored m cr s.meta (storing s)) none (λ o. some (foreign o)) (λ e. some (broken e))
        (create_owned_secret m k what created s cr) h (λ o. refl) (λ e. refl)
        (owned_secret-keeping m k what created s cr)
        (λ t on. create_owned_secret-Stored m k what created s cr t (no_failure _ on))
        (ap is_some complete)

  -- The common form of the two copies.
  abbrev pub copying :
      String
      → String
      → NamespacedName
      → (Secret → Secret)
      → DpfHcpBridge
      → (Secret → Failure)
      → (ApiError → Failure)
      → (ApiError → Failure)
      → Action (Option Failure)
  copying what created source_key target cr foreign broken unread = do
    reply ← get_secret k source_key
    on_reply reply (λ source. ensuring what created (target source) cr foreign broken)
        (λ e. pure (some (unread e)))

  copying-Copied :
      (what created source_name target_name : String) (kind : SecretType) (cr : DpfHcpBridge)
      (foreign : Secret → Failure) (broken unread : ApiError → Failure) (h : Trace)
      → let r =
          copying what created
            (record { namespace = cr.meta.namespace; name = source_name })
            (target_of target_name kind cr)
            cr
            foreign
            broken
            unread
            h in
        r.0 ≡ none → Copied m cr source_name target_name kind r.1
  unfolding ◌>>=◌ call on_reply pure
  copying-Copied what created source_name target_name kind cr foreign broken unread h complete =
      let source_key : NamespacedName = record {
        namespace = cr.meta.namespace;
        name = source_name;
      } in
      elim (Reply-cases (k.get_secret h source_key)) [
        | inr (e, failed) ↦ cc (rw failed at complete)
        | inl (source, got) ↦
            let h' : Trace = Call.get_secret source_key (ok source) ∷ h in
            let s = target_of target_name kind cr source in
            rw got (record {
              source = source;
              read =
                  Only-Logged _ h' (ensuring-keeping what created s cr foreign broken) (inl refl);
              held = ensuring-HeldSecret what created s cr foreign broken h' (rw got at complete);
            })
      ]

  copy_pull_secret-Copied :
      (target_name : String) (cr : DpfHcpBridge) (h : Trace)
      → (copy_pull_secret m k target_name cr h).0 ≡ none
      → Copied m cr cr.spec.pull_secret_ref target_name docker_config_json
          (copy_pull_secret m k target_name cr h).1
  unfolding copy_pull_secret
  copy_pull_secret-Copied target_name cr h complete =
      copying-Copied "pull-secret" "pull-secret" _ _ _ cr _ _ _ h complete

  copy_ssh_key-Copied :
      (target_name : String) (cr : DpfHcpBridge) (h : Trace)
      → (copy_ssh_key m k target_name cr h).0 ≡ none
      → Copied m cr cr.spec.ssh_key_secret_ref target_name opaque
          (copy_ssh_key m k target_name cr h).1
  unfolding copy_ssh_key
  copy_ssh_key-Copied target_name cr h complete =
      copying-Copied "ssh-key" "ssh-key" _ _ _ cr _ _ _ h complete

  copy_ssh_key-keeping :
      (target_name : String) (cr : DpfHcpBridge) → Only keeping (copy_ssh_key m k target_name cr)
  unfolding copy_ssh_key
  copy_ssh_key-keeping target_name cr = search (only_rules, owned_secret-keeping) depth 20

  pub copy_secrets-keeping : (cr : DpfHcpBridge) → Only keeping (copy_secrets m k cr)
  unfolding copy_secrets copy_pull_secret
  copy_secrets-keeping cr = search (only_rules, copy_ssh_key-keeping, owned_secret-keeping) depth 24

  -- A copy of the secrets that goes on has read the pull secret and the SSH key that the bridge
  -- references, and for each of the two it found a secret of the copy's name in the namespace of the bridge that the bridge
  -- controls, or the API said that there is none and then stored one: with the content of the secret
  -- that was read, with the type of a pull secret or of an opaque secret, and with the metadata to which the library
  -- added the bridge as the controller.
  pub copy_secrets-Copied :
      (cr : DpfHcpBridge) (h : Trace)
      → stops (copy_secrets m k cr h).0.1 ≡ false
      → SecretsCopied m cr (copy_secrets m k cr h).1
  unfolding copy_secrets ◌>>=◌ on_option pure
  copy_secrets-Copied cr h goes_on =
      elim (Option-cases (copy_pull_secret m k (pull_secret_name cr) cr h).0) [
        | inr (x, failed) ↦ cc (rw failed at goes_on)
        | inl pulled ↦
            let h' = (copy_pull_secret m k (pull_secret_name cr) cr h).1 in
            elim (Option-cases (copy_ssh_key m k (ssh_key_name cr) cr h').0) [
              | inr (x, failed) ↦ cc (simp (pulled, failed) at goes_on)
              | inl keyed ↦
                  simp (pulled, keyed)
                    (
                      (Copied-later (Only-Keeps h' (copy_ssh_key-keeping (ssh_key_name cr) cr))
                          (copy_pull_secret-Copied _ cr h pulled)),
                      copy_ssh_key-Copied _ cr h' keyed,
                    )
            ]
      ]
