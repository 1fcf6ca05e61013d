-- ===== src/Kubeconfig/Delivery/Converges.antt =====
-- The whole injection, run once and twice, by the store that it leaves.
use dpf_hcp_bridge_operator.Base.{
  ℕ, true, false, some, List, ◌≡◌, refl, ap, ◌∙◌, inl, inr, Bool-cases, ◌==◌, eq_iff,
}
use dpf_hcp_bridge_operator.Base.Result.{success, on_result}
use dpf_hcp_bridge_operator.Types.{DpfHcpBridge, ObjectReference}
use dpf_hcp_bridge_operator.Platform.{Client, Meta, Trace, ◌>>=◌, on_option}
use dpf_hcp_bridge_operator.Platform.Only.{Grows}
use dpf_hcp_bridge_operator.Platform.Server.{Store, Served, Keyed, replay}
use dpf_hcp_bridge_operator.Kubeconfig.Injector.{
  InjectionState, kubeconfig_secret_name, source_key, cluster_key, check_injection_state,
  detect_hc_kubeconfig_availability, inject_available, inject_kubeconfig,
}
use dpf_hcp_bridge_operator.Kubeconfig.Stored.{Holds}
use dpf_hcp_bridge_operator.Kubeconfig.Delivery.Steps.{quiet, after-quiet, replay-quiet}
use dpf_hcp_bridge_operator.Kubeconfig.Delivery.Reads.{
  found, check_state-quiet, detect-quiet, check_state-present, check_state-absent, detect-present,
}
use dpf_hcp_bridge_operator.Kubeconfig.Delivery.Scenarios.{
  absent-Delivered, updated-Delivered, reference-Referenced,
}
use dpf_hcp_bridge_operator.Kubeconfig.Delivery.Readiness.{
  Ready, IsDelivered, IsNamed, Progress, named_cluster, Progress-Ready, Ready-same,
}

module _ (m : Meta) (k : Client) (s0 : Store) (served : Served s0 k) (keyed : Keyed s0) where
  -- The trace after the two checks that come first.
  abbrev pub checked : DpfHcpBridge → Trace → Trace
  checked b h = (detect_hc_kubeconfig_availability k b (check_injection_state k b h).1).1

  pub replay-checked : (b : DpfHcpBridge) (h : Trace) → replay s0 (checked b h) ≡ replay s0 h
  replay-checked b h =
      after-quiet s0 (detect_hc_kubeconfig_availability k b) _ (detect-quiet k b)
      ∙ after-quiet s0 (check_injection_state k b) h (check_state-quiet k b)

  pub inject_kubeconfig-checked :
      (b : DpfHcpBridge) (ref : ObjectReference) (bytes : List ℕ) (state : InjectionState)
      (h : Trace)
      → b.status.hosted_cluster_ref ≡ some ref
      → (check_injection_state k b h).0 ≡ success state
      → Holds (replay s0 h) (source_key b (kubeconfig_secret_name b)) bytes
      → inject_kubeconfig m k b h
        ≡ inject_available m k state (kubeconfig_secret_name b) b (checked b h)
  unfolding inject_kubeconfig ◌>>=◌ on_option on_result
  inject_kubeconfig-checked b ref bytes state h referenced checks source =
      let unread = after-quiet s0 (check_injection_state k b) h (check_state-quiet k b) in
      let detects =
        detect-present k s0 served b source.secret (check_injection_state k b h).1
          (rw unread source.present) in
      simp (referenced, checks, detects) refl

  inject_kubeconfig-Progress :
      (b : DpfHcpBridge) (ref : ObjectReference) (bytes : List ℕ) (h : Trace)
      → b.status.hosted_cluster_ref ≡ some ref
      → Ready (replay s0 h) b bytes
      → Progress (replay s0 h) (replay s0 (inject_kubeconfig m k b h).1) b bytes
  inject_kubeconfig-Progress b ref bytes h referenced ready =
      let name = kubeconfig_secret_name b in
      let d = ready.cluster in
      let unread = replay-checked b h in
      elim ready.copy [
        | inl absent ↦
            rw
              (inject_kubeconfig-checked b ref bytes (found false d b) h referenced
                (check_state-absent k s0 served b d h absent ready.present) ready.source)
              (inl (
                absent-Delivered m k s0 served keyed b name d (d.kubeconfig == name) bytes _
                  (rw unread ready.source) (rw unread ready.present) (eq_iff d.kubeconfig name).0))
        | inr (old, copy) ↦
            let checks =
              inject_kubeconfig-checked b ref bytes (found true d b) h referenced
                (check_state-present k s0 served b copy.secret d h copy.present ready.present)
                ready.source in
            elim (Bool-cases (d.kubeconfig == name)) [
              | inl same ↦ rw checks (
                  rw same (
                    inl (
                      updated-Delivered m k s0 served keyed b name d bytes old _
                        (rw unread ready.source) (rw unread copy) (rw unread ready.present)
                        ((eq_iff d.kubeconfig name).0 same))))
              | inr apart ↦
                  let referenced_after =
                    reference-Referenced m k s0 served keyed b name d (checked b h)
                      (rw unread ready.present) in
                  rw checks (
                    rw apart (
                      inr (
                        record {
                          reference = referenced_after.reference;
                          secrets = referenced_after.secrets ∙ ap (λ st. st.secrets) unread;
                        },
                        λ named. absurd (
                            cc (
                              apart,
                              (eq_iff d.kubeconfig name).1 (
                                  named_cluster (replay s0 h) (cluster_key b) name d ready.present
                                    named),
                            )),
                      )))
            ]
      ]

  inject_kubeconfig_named :
      (b : DpfHcpBridge) (ref : ObjectReference) (bytes : List ℕ) (h : Trace)
      → b.status.hosted_cluster_ref ≡ some ref
      → Ready (replay s0 h) b bytes
      → IsNamed (replay s0 h) b
      → IsDelivered (replay s0 (inject_kubeconfig m k b h).1) b bytes
  inject_kubeconfig_named b ref bytes h referenced ready named =
      elim (inject_kubeconfig-Progress b ref bytes h referenced ready) [
        | inl delivered ↦ delivered
        | inr (_, unnamed) ↦ absurd (unnamed named)
      ]

  -- Against a server that answers from its store and refuses only what it has not, or has already,
  -- and whose objects stand under their own keys at first: where the HostedCluster is referenced, its
  -- secret holds a kubeconfig, the DPUCluster exists, and the copy is absent or has a kubeconfig of
  -- any content, two injections, the second for a bridge with the same metadata and spec and with a
  -- reference, and with other calls between them that write no secret and no DPUCluster, leave the
  -- copy with the bytes of the source and the DPUCluster with its name.
  pub inject_kubeconfig_converges :
      (b b' : DpfHcpBridge) (ref ref' : ObjectReference) (bytes : List ℕ) (h t : Trace)
      → b.status.hosted_cluster_ref ≡ some ref
      → b'.meta ≡ b.meta
      → b'.spec ≡ b.spec
      → b'.status.hosted_cluster_ref ≡ some ref'
      → Ready (replay s0 h) b bytes
      → Grows quiet (inject_kubeconfig m k b h).1 t
      → IsDelivered (replay s0 (inject_kubeconfig m k b' t).1) b' bytes
  inject_kubeconfig_converges b b' ref ref' bytes h t referenced meta spec referenced' ready
        between =
      let kept = replay-quiet s0 (inject_kubeconfig m k b h).1 t between in
      let first =
        Progress-Ready (replay s0 h) _ b bytes
          (inject_kubeconfig-Progress b ref bytes h referenced ready) ready in
      let (then_ready, then_named) =
        Ready-same (replay s0 t) b b' bytes meta spec (rw kept first) in
      inject_kubeconfig_named b' ref' bytes t referenced' then_ready then_named
