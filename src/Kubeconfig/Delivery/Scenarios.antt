-- ===== src/Kubeconfig/Delivery/Scenarios.antt =====
-- The scenarios of the injection, by the store that each leaves.
use dpf_hcp_bridge_operator.Base.{
  ℕ, String, Bool, true, false, some, List, ◌≡◌, ap, sym, ◌∙◌, inl, inr, Bool-cases,
}
use dpf_hcp_bridge_operator.Base.Result.{on_result}
use dpf_hcp_bridge_operator.Types.{DpfHcpBridge, DpuCluster}
use dpf_hcp_bridge_operator.Platform.{Client, Meta, Trace, pure, ◌>>=◌, call, on_option}
use dpf_hcp_bridge_operator.Platform.Server.{Store, Served, Keyed, apply, replay}
use dpf_hcp_bridge_operator.Kubeconfig.Injector.{
  source_key, dest_key, cluster_key, bytes_equal, check_drift, with_secret_ref,
  handle_idempotency_scenarios, injected, inject_available,
}
use dpf_hcp_bridge_operator.Kubeconfig.Stored.{Holds, Names, reference-Names}
use dpf_hcp_bridge_operator.Kubeconfig.Delivery.Steps.{
  after-quiet, injected-quiet, Referenced, Delivered, write_secret_step-Delivered,
}
use dpf_hcp_bridge_operator.Kubeconfig.Delivery.Reads.{
  drift-quiet, check_drift-Holds, bytes_equal_lem,
}

module _ (m : Meta) (k : Client) (s0 : Store) (served : Served s0 k) (keyed : Keyed s0) where
  -- Scenarios C and D: there is no copy.
  pub absent-Delivered :
      (b : DpfHcpBridge) (name : String) (d : DpuCluster) (updated : Bool) (bytes : List ℕ)
      (h : Trace)
      → Holds (replay s0 h) (source_key b name) bytes
      → (replay s0 h).clusters (cluster_key b) ≡ some d
      → (updated ≡ true → d.kubeconfig ≡ name)
      → Delivered
          (replay s0
            (inject_available m k
              (record { secret_exists = false; dpu_cluster_updated = updated })
              name
              b
              h).1)
          b
          name
          bytes
  unfolding inject_available handle_idempotency_scenarios ◌>>=◌ pure on_result
  absent-Delivered b name d updated bytes h source present named =
      write_secret_step-Delivered m k s0 served keyed name updated b bytes h source (d, present)
        (λ e. record { cluster = d; present = present; reference = named e })

  -- Scenario A: both are there.
  pub updated-Delivered :
      (b : DpfHcpBridge) (name : String) (d : DpuCluster) (bytes old : List ℕ) (h : Trace)
      → Holds (replay s0 h) (source_key b name) bytes
      → Holds (replay s0 h) (dest_key b name) old
      → (replay s0 h).clusters (cluster_key b) ≡ some d
      → d.kubeconfig ≡ name
      → Delivered
          (replay s0
            (inject_available m k
              (record { secret_exists = true; dpu_cluster_updated = true })
              name
              b
              h).1)
          b
          name
          bytes
  unfolding inject_available handle_idempotency_scenarios ◌>>=◌ call pure on_result replay apply
  updated-Delivered b name d bytes old h source dest present named =
      let drift = check_drift-Holds k s0 served b name bytes old h source dest in
      let unread = after-quiet s0 (check_drift k b name) h (drift-quiet k b name) in
      let names : Names (replay s0 h) (cluster_key b) name = record {
        cluster = d;
        present = present;
        reference = named;
      } in
      elim (Bool-cases (bytes_equal bytes old)) [
        | inl equal ↦
            let content = dest.content ∙ ap some (sym (bytes_equal_lem bytes old equal)) in
            rw drift (
              rw equal (
                rw (after-quiet s0 (injected m k b) _ (injected-quiet m k b)) (
                  rw unread (record {
                    source = source;
                    copy = record {
                      secret = dest.secret;
                      present = dest.present;
                      content = content;
                    };
                    reference = names;
                  }))))
        | inr differ ↦ rw drift (
            rw differ (
              write_secret_step-Delivered m k s0 served keyed name true b bytes _ (rw unread source)
                (d, rw unread present) (λ e. rw unread names)))
      ]

  -- Scenario B: only the reference is missing.
  pub reference-Referenced :
      (b : DpfHcpBridge) (name : String) (d : DpuCluster) (h : Trace)
      → (replay s0 h).clusters (cluster_key b) ≡ some d
      → Referenced
          (replay s0 h)
          (replay s0
            (inject_available m k
              (record { secret_exists = true; dpu_cluster_updated = false })
              name
              b
              h).1)
          b
          name
  unfolding inject_available handle_idempotency_scenarios ◌>>=◌ pure on_result on_option
  reference-Referenced b name d h present =
      let (complete, reference, secrets) =
        reference-Names k s0 served keyed b name h (d, present) in
      rw complete (
        rw (after-quiet s0 (injected m k (with_secret_ref b name)) _ (injected-quiet m k _))
          (record { reference = reference; secrets = secrets }))
