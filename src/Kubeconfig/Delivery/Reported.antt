-- ===== src/Kubeconfig/Delivery/Reported.antt =====
-- What the injection of a kubeconfig that is delivered already reports.
use dpf_hcp_bridge_operator.Base.{
  ℕ, String, Bool, true, some, List, ◌≡◌, refl, ◌∙◌, ap, ◌==◌, eq_iff,
}
use dpf_hcp_bridge_operator.Base.Result.{on_result}
use dpf_hcp_bridge_operator.Types.{
  DpfHcpBridge, ObjectReference, condition_true, kubeconfig_injected,
}
use dpf_hcp_bridge_operator.Platform.{
  Client, Meta, Trace, ConditionLaws, status_at, status?, ok, done, pure, ◌>>=◌, call, on_reply,
  on_option,
}
use dpf_hcp_bridge_operator.Platform.Server.{Store, Served, Keyed, replay}
use dpf_hcp_bridge_operator.Report.{set_condition}
use dpf_hcp_bridge_operator.Report.Laws.{Frame}
use dpf_hcp_bridge_operator.Kubeconfig.Injector.{
  kubeconfig_secret_name, source_key, dest_key, check_drift, handle_idempotency_scenarios,
  inject_available, inject_kubeconfig, injected, finish_with, set_injected,
}
use dpf_hcp_bridge_operator.Kubeconfig.Stored.{Holds}
use dpf_hcp_bridge_operator.Kubeconfig.Delivery.Reads.{
  found, check_state-present, check_drift-Holds, bytes_equal_refl,
}
use dpf_hcp_bridge_operator.Kubeconfig.Delivery.Readiness.{IsDelivered}
use dpf_hcp_bridge_operator.Kubeconfig.Delivery.Converges.{
  checked, replay-checked, inject_kubeconfig-checked,
}

module _ (m : Meta) (k : Client) (s0 : Store) (served : Served s0 k) (keyed : Keyed s0) where
  no_drift :
      (b : DpfHcpBridge) (name : String) (bytes : List ℕ) (h : Trace)
      → Holds (replay s0 h) (source_key b name) bytes
      → Holds (replay s0 h) (dest_key b name) bytes
      → inject_available m k (record { secret_exists = true; dpu_cluster_updated = true }) name b h
        ≡ injected m k b (check_drift k b name h).1
  unfolding inject_available handle_idempotency_scenarios ◌>>=◌ pure on_result
  no_drift b name bytes h source copy =
      let drift = check_drift-Holds k s0 served b name bytes bytes h source copy in
      rw drift (rw (bytes_equal_refl bytes) refl)

  -- It goes straight to its last step.
  pub inject_kubeconfig-delivered :
      (b : DpfHcpBridge) (ref : ObjectReference) (bytes : List ℕ) (h : Trace)
      → b.status.hosted_cluster_ref ≡ some ref
      → IsDelivered (replay s0 h) b bytes
      → let name = kubeconfig_secret_name b in
        inject_kubeconfig m k b h
        ≡ injected m k b (check_drift k b name (checked m k s0 served keyed b h)).1
  inject_kubeconfig-delivered b ref bytes h referenced delivered =
      let name = kubeconfig_secret_name b in
      let d = delivered.reference.cluster in
      let copy = delivered.copy in
      let unread = replay-checked m k s0 served keyed b h in
      let checks =
        inject_kubeconfig-checked m k s0 served keyed b ref bytes (found true d b) h referenced
          (check_state-present k s0 served b copy.secret d h copy.present
            delivered.reference.present)
          delivered.source in
      rw checks (
        rw ((eq_iff d.kubeconfig name).1 delivered.reference.reference)
          (no_drift b name bytes _ (rw unread delivered.source) (rw unread copy)))

abbrev pub is_injected_kind : String → Bool
is_injected_kind x = kubeconfig_injected == x

module _ {m : Meta} (k : Client) (laws : ConditionLaws m) where
  -- The last step of an injection, whose status is stored.
  pub injected-True :
      (b : DpfHcpBridge) (h : Trace)
      → ((t : Trace) (b' : DpfHcpBridge) → k.update_bridge_status t b' ≡ ok b')
      → let r = injected m k b h in
        (r.0.1 ≡ done)
        × Frame m is_injected_kind b r.0.0
        × (status_at m r.0.0.status.conditions kubeconfig_injected ≡ some condition_true)
  unfolding injected finish_with set_injected set_condition ◌>>=◌ call on_reply on_option pure
  injected-True b h stored = rw (stored _ _) (
    refl,
    record {
      meta = refl;
      spec = refl;
      phase = refl;
      hosted_cluster_ref = refl;
      others = λ x out. laws.seen-set _ _ _ x ∙ rw out refl;
    },
    ap status? (laws.seen-set _ _ _ kubeconfig_injected),
  )
