-- ===== src/Kubeconfig/Delivery/Stuck.antt =====
-- The injection over a copy that has lost its key.
use dpf_hcp_bridge_operator.Base.{ℕ, String, true, none, some, List, ◌∷◌, ◌≡◌, refl, lookup, eq_iff}
use dpf_hcp_bridge_operator.Base.Result.{failure, on_result}
use dpf_hcp_bridge_operator.Types.{DpfHcpBridge, ObjectReference, Secret}
use dpf_hcp_bridge_operator.Platform.{
  Client, Meta, Trace, Call, Failure, Outcome, ok, wrapped, errorf, fail, pure, ◌>>=◌, call,
  on_reply, on_option,
}
use dpf_hcp_bridge_operator.Platform.Only.{Grows, Grows-trans}
use dpf_hcp_bridge_operator.Platform.Server.{Store, Served, Keyed, apply, replay}
use dpf_hcp_bridge_operator.Kubeconfig.Injector.{
  kubeconfig_secret_name, source_key, dest_key, cluster_key, check_drift,
  handle_idempotency_scenarios, injection_failed, inject_available, inject_kubeconfig,
}
use dpf_hcp_bridge_operator.Kubeconfig.Stored.{Holds, Names}
use dpf_hcp_bridge_operator.Kubeconfig.Delivery.Steps.{quiet, injection_failed-quiet}
use dpf_hcp_bridge_operator.Kubeconfig.Delivery.Reads.{found, drift-quiet, check_state-present}
use dpf_hcp_bridge_operator.Kubeconfig.Delivery.Converges.{
  checked, replay-checked, inject_kubeconfig-checked,
}
use dpf_hcp_bridge_operator.Kubeconfig.Delivery.Idle.{checked-quiet}

abbrev pub lost_key : Failure
lost_key = wrapped "failed to check drift" (errorf "destination secret missing 'kubeconfig' key")

-- The action fails with the error, and writes no secret and no DPUCluster.
abbrev pub FailsQuietly : Failure → Trace → (DpfHcpBridge × Outcome) × Trace → Type 0
FailsQuietly x h r = (r.0.1 ≡ fail x) × Grows quiet h r.1

injection_failed_error :
    (m : Meta) (k : Client) (text : String) (x : Failure) (b : DpfHcpBridge) (h : Trace)
    → (injection_failed m k text x b h).0.1 ≡ fail x
unfolding injection_failed ◌>>=◌ pure
injection_failed_error m k text x b h = refl

module _ (m : Meta) (k : Client) (s0 : Store) (served : Served s0 k) (keyed : Keyed s0) where
  check_drift-lost :
      (b : DpfHcpBridge) (name : String) (bytes : List ℕ) (copy : Secret) (h : Trace)
      → Holds (replay s0 h) (source_key b name) bytes
      → (replay s0 h).secrets (dest_key b name) ≡ some copy
      → lookup "kubeconfig" copy.content ≡ none
      → (check_drift k b name h).0 ≡ failure (errorf "destination secret missing 'kubeconfig' key")
  unfolding check_drift ◌>>=◌ call on_reply on_option pure replay apply
  check_drift-lost b name bytes copy h source dest lost =
      let got = served.get_secret-present h (source_key b name) source.secret source.present in
      let h1 : Trace = Call.get_secret (source_key b name) (ok source.secret) ∷ h in
      let read = served.get_secret-present h1 (dest_key b name) copy dest in
      simp (got, read, source.content, lost) refl

  lost_available :
      (b : DpfHcpBridge) (name : String) (bytes : List ℕ) (copy : Secret) (h : Trace)
      → Holds (replay s0 h) (source_key b name) bytes
      → (replay s0 h).secrets (dest_key b name) ≡ some copy
      → lookup "kubeconfig" copy.content ≡ none
      → FailsQuietly lost_key h (
          inject_available m k
            (record { secret_exists = true; dpu_cluster_updated = true })
            name
            b
            h)
  unfolding inject_available handle_idempotency_scenarios ◌>>=◌ pure on_result
  lost_available b name bytes copy h source dest lost =
      rw (check_drift-lost b name bytes copy h source dest lost) (
        injection_failed_error m k _ lost_key b _,
        Grows-trans ((drift-quiet k b name).at h) ((injection_failed-quiet m k _ lost_key b).at _),
      )

  -- Against a server that answers from its store, whose objects stand under their own keys at first:
  -- where the HostedCluster is referenced, its secret holds a kubeconfig, the copy exists without one,
  -- and the DPUCluster names the copy, an injection fails, and writes no secret and no DPUCluster.
  pub inject_kubeconfig-lost_key :
      (b : DpfHcpBridge) (ref : ObjectReference) (bytes : List ℕ) (copy : Secret) (h : Trace)
      → b.status.hosted_cluster_ref ≡ some ref
      → Holds (replay s0 h) (source_key b (kubeconfig_secret_name b)) bytes
      → (replay s0 h).secrets (dest_key b (kubeconfig_secret_name b)) ≡ some copy
      → lookup "kubeconfig" copy.content ≡ none
      → Names (replay s0 h) (cluster_key b) (kubeconfig_secret_name b)
      → FailsQuietly lost_key h (inject_kubeconfig m k b h)
  inject_kubeconfig-lost_key b ref bytes copy h referenced source dest lost named =
      let name = kubeconfig_secret_name b in
      let d = named.cluster in
      let unread = replay-checked m k s0 served keyed b h in
      let checks =
        inject_kubeconfig-checked m k s0 served keyed b ref bytes (found true d b) h referenced
          (check_state-present k s0 served b copy d h dest named.present) source in
      let (fails, writes) =
        lost_available b name bytes copy (checked m k s0 served keyed b h) (rw unread source)
          (rw unread dest) lost in
      rw checks (
        rw ((eq_iff d.kubeconfig name).1 named.reference)
          (fails, Grows-trans (checked-quiet m k s0 served keyed b h) writes))
