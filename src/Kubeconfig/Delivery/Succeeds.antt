-- ===== src/Kubeconfig/Delivery/Succeeds.antt =====
-- An injection into a store from which it can be delivered reports that it is injected.
use dpf_hcp_bridge_operator.Base.{
  ℕ, String, Bool, true, false, some, List, ◌≡◌, refl, ap, ◌==◌, inl, inr, Bool-cases, ◌∙◌,
}
use dpf_hcp_bridge_operator.Base.Result.{on_result}
use dpf_hcp_bridge_operator.Types.{
  DpfHcpBridge, ObjectReference, condition_true, kubeconfig_injected,
}
use dpf_hcp_bridge_operator.Platform.{
  Client, Meta, Trace, Outcome, ConditionLaws, status_at, ok, done, pure, ◌>>=◌, call, on_option,
}
use dpf_hcp_bridge_operator.Platform.Server.{Store, Served, Keyed, replay, apply}
use dpf_hcp_bridge_operator.Report.Laws.{Frame, Frame-trans}
use dpf_hcp_bridge_operator.Kubeconfig.Injector.{
  kubeconfig_secret_name, source_key, dest_key, cluster_key, check_drift, bytes_equal,
  with_secret_ref, handle_idempotency_scenarios, inject_available, inject_kubeconfig, injected,
  complete_injection, update_reference_step, write_secret_step,
}
use dpf_hcp_bridge_operator.Kubeconfig.Stored.{Holds, Present, reference-Names, kubeconfig-Holds}
use dpf_hcp_bridge_operator.Kubeconfig.Delivery.Reads.{
  found, check_state-present, check_state-absent, check_drift-Holds, drift-quiet,
}
use dpf_hcp_bridge_operator.Kubeconfig.Delivery.Steps.{after-quiet}
use dpf_hcp_bridge_operator.Kubeconfig.Delivery.Readiness.{Ready}
use dpf_hcp_bridge_operator.Kubeconfig.Delivery.Converges.{
  replay-checked, inject_kubeconfig-checked,
}
use dpf_hcp_bridge_operator.Kubeconfig.Delivery.Reported.{is_injected_kind, injected-True}

-- The run ends with the last step of an injection, for the bridge with or without a new name of the secret.
record Finishes (m : Meta) (k : Client) (b : DpfHcpBridge) (r : (DpfHcpBridge × Outcome) × Trace)
    : Type 0 where
  last : DpfHcpBridge
  trace : Trace
  runs : r ≡ injected m k last trace
  frame : Frame m is_injected_kind b last

module _ (m : Meta) (k : Client) where
  injected-Finishes : (b : DpfHcpBridge) (h : Trace) → Finishes m k b (injected m k b h)
  injected-Finishes b h = record {
    last = b;
    trace = h;
    runs = refl;
    frame = record {
      meta = refl;
      spec = refl;
      phase = refl;
      hosted_cluster_ref = refl;
      others = λ x out. refl;
    };
  }

  complete-Finishes :
      (name : String) (b : DpfHcpBridge) (h : Trace)
      → Finishes m k b (complete_injection m k name b h)
  unfolding complete_injection
  complete-Finishes name b h = record {
    last = with_secret_ref b name;
    trace = h;
    runs = refl;
    frame = record {
      meta = refl;
      spec = refl;
      phase = refl;
      hosted_cluster_ref = refl;
      others = λ x out. refl;
    };
  }

module _ (m : Meta) (k : Client) (s0 : Store) (served : Served s0 k) (keyed : Keyed s0) where
  update_reference_step-Finishes :
      (name : String) (updated : Bool) (b : DpfHcpBridge) (h : Trace)
      → Present (replay s0 h) (cluster_key b)
      → Finishes m k b (update_reference_step m k name updated b h)
  unfolding update_reference_step ◌>>=◌ call on_option
  update_reference_step-Finishes name true b h present = complete-Finishes m k name b h
  update_reference_step-Finishes name false b h present =
      let complete = (reference-Names k s0 served keyed b name h present).0 in
      rw complete (complete-Finishes m k name b _)

  write_secret_step-Finishes :
      (name : String) (updated : Bool) (b : DpfHcpBridge) (bytes : List ℕ) (h : Trace)
      → Holds (replay s0 h) (source_key b name) bytes
      → Present (replay s0 h) (cluster_key b)
      → Finishes m k b (write_secret_step m k name updated b h)
  unfolding write_secret_step ◌>>=◌ call on_option replay apply
  write_secret_step-Finishes name updated b bytes h source (d, present) =
      let (complete, copied) = kubeconfig-Holds k s0 served keyed b name bytes h source in
      rw complete (
        update_reference_step-Finishes name updated b _
          (d, ap (λ f. f (cluster_key b)) copied.clusters ∙ present))

  absent-Finishes :
      (b : DpfHcpBridge) (name : String) (updated : Bool) (bytes : List ℕ) (h : Trace)
      → Holds (replay s0 h) (source_key b name) bytes
      → Present (replay s0 h) (cluster_key b)
      → Finishes m k b (
          inject_available m k
            (record { secret_exists = false; dpu_cluster_updated = updated })
            name
            b
            h)
  unfolding inject_available handle_idempotency_scenarios ◌>>=◌ pure on_result
  absent-Finishes b name updated bytes h source present =
      write_secret_step-Finishes name updated b bytes h source present

  updated-Finishes :
      (b : DpfHcpBridge) (name : String) (bytes old : List ℕ) (h : Trace)
      → Holds (replay s0 h) (source_key b name) bytes
      → Holds (replay s0 h) (dest_key b name) old
      → Present (replay s0 h) (cluster_key b)
      → Finishes m k b (
          inject_available m k
            (record { secret_exists = true; dpu_cluster_updated = true })
            name
            b
            h)
  unfolding inject_available handle_idempotency_scenarios ◌>>=◌ call pure on_result replay apply
  updated-Finishes b name bytes old h source dest (d, present) =
      let drift = check_drift-Holds k s0 served b name bytes old h source dest in
      let unread = after-quiet s0 (check_drift k b name) h (drift-quiet k b name) in
      elim (Bool-cases (bytes_equal bytes old)) [
        | inl equal ↦ rw drift (rw equal (injected-Finishes m k b _))
        | inr differ ↦ rw drift (
            rw differ (
              write_secret_step-Finishes name true b bytes _ (rw unread source)
                (d, rw unread present)))
      ]

  reference-Finishes :
      (b : DpfHcpBridge) (name : String) (h : Trace)
      → Present (replay s0 h) (cluster_key b)
      → Finishes m k b (
          inject_available m k
            (record { secret_exists = true; dpu_cluster_updated = false })
            name
            b
            h)
  unfolding inject_available handle_idempotency_scenarios complete_injection ◌>>=◌ pure on_result
      on_option
  reference-Finishes b name h present =
      rw (reference-Names k s0 served keyed b name h present).0 (complete-Finishes m k name b _)

  inject_kubeconfig-Finishes :
      (b : DpfHcpBridge) (ref : ObjectReference) (bytes : List ℕ) (h : Trace)
      → b.status.hosted_cluster_ref ≡ some ref
      → Ready (replay s0 h) b bytes
      → Finishes m k b (inject_kubeconfig m k b h)
  inject_kubeconfig-Finishes b ref bytes h referenced ready =
      let name = kubeconfig_secret_name b in
      let d = ready.cluster in
      let unread = replay-checked m k s0 served keyed b h in
      elim ready.copy [
        | inl absent ↦
            rw
              (inject_kubeconfig-checked m k s0 served keyed b ref bytes (found false d b) h
                referenced (check_state-absent k s0 served b d h absent ready.present) ready.source)
              (absent-Finishes b name (d.kubeconfig == name) bytes _ (rw unread ready.source)
                (d, rw unread ready.present))
        | inr (old, copy) ↦
            let checks =
              inject_kubeconfig-checked m k s0 served keyed b ref bytes (found true d b) h
                referenced
                (check_state-present k s0 served b copy.secret d h copy.present ready.present)
                ready.source in
            elim (Bool-cases (d.kubeconfig == name)) [
              | inl same ↦ rw checks (
                  rw same (
                    updated-Finishes b name bytes old _ (rw unread ready.source) (rw unread copy)
                      (d, rw unread ready.present)))
              | inr apart ↦
                  rw checks (rw apart (reference-Finishes b name _ (d, rw unread ready.present)))
            ]
      ]

  -- What the report of the injection leaves.
  pub inject_kubeconfig-True :
      (b : DpfHcpBridge) (ref : ObjectReference) (bytes : List ℕ) (h : Trace)
      → ConditionLaws m
      → ((t : Trace) (b' : DpfHcpBridge) → k.update_bridge_status t b' ≡ ok b')
      → b.status.hosted_cluster_ref ≡ some ref
      → Ready (replay s0 h) b bytes
      → let r = inject_kubeconfig m k b h in
        (r.0.1 ≡ done)
        × Frame m is_injected_kind b r.0.0
        × (status_at m r.0.0.status.conditions kubeconfig_injected ≡ some condition_true)
  inject_kubeconfig-True b ref bytes h laws stored referenced ready =
      let f = inject_kubeconfig-Finishes b ref bytes h referenced ready in
      let (went, frame, is_true) = injected-True k laws f.last f.trace stored in
      rw f.runs (went, Frame-trans f.frame frame, is_true)
