-- ===== src/Controller/Reconcile/Readiness.antt =====
-- The reconciliation that makes a bridge Ready.
use dpf_hcp_bridge_operator.Base.{ℕ, String, Bool, false, none, some, List, ◌∷◌, ◌≡◌, refl, ◌∙◌, ap}
use dpf_hcp_bridge_operator.Types.{
  DpfHcpBridge, ObjectReference, dpu_cluster_missing, cluster_type_valid, dpu_cluster_in_use,
  secrets_valid, bluefield_image_resolved, hosted_cluster_available, kubeconfig_injected,
  ready_condition, condition_true, phase_ready,
}
use dpf_hcp_bridge_operator.Platform.{
  Client, Meta, Trace, Call, ConditionLaws, status_at, status?, ok, done, pure, ◌>>=◌, call,
  on_reply, on_option, ◌and_then◌,
}
use dpf_hcp_bridge_operator.Platform.Only.{same, more}
use dpf_hcp_bridge_operator.Platform.Server.{Store, Served, Keyed, replay}
use dpf_hcp_bridge_operator.Report.{persist_status}
use dpf_hcp_bridge_operator.Report.Laws.{Frame, and_then-on}
use dpf_hcp_bridge_operator.HostedCluster.StatusSync.{
  ConditionMapping, sync_status_from_hosted_cluster,
}
use dpf_hcp_bridge_operator.HostedCluster.StatusSync.Laws.{Distinct}
use dpf_hcp_bridge_operator.HostedCluster.StatusSync.Synced.{Available, is_target, sync-Available}
use dpf_hcp_bridge_operator.Kubeconfig.Injector.{inject_kubeconfig}
use dpf_hcp_bridge_operator.Kubeconfig.Delivery.Steps.{replay-quiet}
use dpf_hcp_bridge_operator.Kubeconfig.Delivery.Readiness.{Ready, Ready-kept}
use dpf_hcp_bridge_operator.Kubeconfig.Delivery.Succeeds.{inject_kubeconfig-True}
use dpf_hcp_bridge_operator.Controller.Phase.{update_phase_from_conditions, compute_ready_condition}
use dpf_hcp_bridge_operator.Controller.PhaseLaws.{
  IsFailing, update_phase_exact, update_phase-conditions,
}
use dpf_hcp_bridge_operator.Controller.Ready.{compute_ready_exact}
use dpf_hcp_bridge_operator.Controller.Reconcile.{
  set_ref_step, injection_feature, final_step, closing_features,
}

-- None of the conditions of the validations, by their types.
pub record Leaves (own : String → Bool) : Type 0 where
  pub missing : own dpu_cluster_missing ≡ false
  pub type_valid : own cluster_type_valid ≡ false
  pub in_use : own dpu_cluster_in_use ≡ false
  pub secrets : own secrets_valid ≡ false
  pub image : own bluefield_image_resolved ≡ false

-- The last call stored a bridge that is Ready, by its condition and by its phase.
abbrev pub ReadyLast : Meta → Trace → Type 0
ReadyLast m t =
    (b : DpfHcpBridge) × (before : Trace) × (t ≡ Call.update_bridge_status b (ok b) ∷ before)
    × (b.status.phase ≡ phase_ready)
    × (status_at m b.status.conditions ready_condition ≡ some condition_true)

-- A bridge on which every requirement of Ready is met, and no validation condition is bad.
pub record Met (m : Meta) (cr : DpfHcpBridge) : Type 0 where
  pub alive : cr.meta.deletion_timestamp ≡ none
  pub sound : ¬ IsFailing m cr.status.conditions
  pub available : status_at m cr.status.conditions hosted_cluster_available ≡ some condition_true
  pub injected : status_at m cr.status.conditions kubeconfig_injected ≡ some condition_true

-- The validation conditions are as they were.
Frame-sound :
    {m : Meta} {own : String → Bool} {cr cr' : DpfHcpBridge}
    → Leaves own
    → Frame m own cr cr'
    → ¬ IsFailing m cr.status.conditions
    → ¬ IsFailing m cr'.status.conditions
Frame-sound leaves frame sound failing = sound (
    rw
      (
        ap status? (frame.others _ leaves.missing),
        ap status? (frame.others _ leaves.type_valid),
        ap status? (frame.others _ leaves.in_use),
        ap status? (frame.others _ leaves.secrets),
        ap status? (frame.others _ leaves.image),
      )
      at failing)

module _ {m : Meta} (k : Client) (laws : ConditionLaws m)
    (stored : (t : Trace) (b : DpfHcpBridge) → k.update_bridge_status t b ≡ ok b) where
  final_step-Ready :
      (cr : DpfHcpBridge) (h : Trace)
      → Met m cr
      → ((final_step m k cr h).0.1 ≡ done) × ReadyLast m (final_step m k cr h).1
  unfolding final_step persist_status ◌>>=◌ call on_reply pure
  final_step-Ready cr h met =
      let (cr', t) = compute_ready_condition m k cr h in
      let (exact, others, frame) = compute_ready_exact k laws cr h in
      let is_ready = exact.1 (met.available, met.injected) in
      let sound =
        Frame-sound
          (record {
            missing = refl;
            type_valid = refl;
            in_use = refl;
            secrets = refl;
            image = refl;
          })
          frame met.sound in
      let phase = (update_phase_exact m cr').2.1 (rw frame.meta met.alive, sound, is_ready) in
      rw (stored t (update_phase_from_conditions m cr')) (
        refl,
        (
          update_phase_from_conditions m cr',
          t,
          refl,
          phase,
          rw (update_phase-conditions m cr') is_ready,
        ),
      )

  set_ref_step-skip :
      (ref : ObjectReference) (cr : DpfHcpBridge) (h : Trace)
      → cr.status.hosted_cluster_ref ≡ some ref
      → set_ref_step m k cr h ≡ ((cr, done), h)
  unfolding set_ref_step on_option pure
  set_ref_step-skip ref cr h referenced = simp referenced refl

  injection_feature-runs :
      (ref : ObjectReference) (cr : DpfHcpBridge) (h : Trace)
      → cr.status.hosted_cluster_ref ≡ some ref
      → injection_feature m k cr h ≡ inject_kubeconfig m k cr h
  unfolding injection_feature on_option
  injection_feature-runs ref cr h referenced = simp referenced refl

module _ {m : Meta} (k : Client) (laws : ConditionLaws m)
    (stored : (t : Trace) (b : DpfHcpBridge) → k.update_bridge_status t b ≡ ok b) (s0 : Store)
    (served : Served s0 k) (keyed : Keyed s0) (order : List ConditionMapping)
    (distinct : Distinct order) (leaves : Leaves (is_target order)) where
  -- The injection and the end, for a bridge whose HostedCluster is available.
  injecting-Ready :
      (ref : ObjectReference) (bytes : List ℕ) (cr : DpfHcpBridge) (h : Trace)
      → cr.meta.deletion_timestamp ≡ none
      → ¬ IsFailing m cr.status.conditions
      → cr.status.hosted_cluster_ref ≡ some ref
      → status_at m cr.status.conditions hosted_cluster_available ≡ some condition_true
      → Ready (replay s0 h) cr bytes
      → let r = (injection_feature m k and_then final_step m k) cr h in
        (r.0.1 ≡ done) × ReadyLast m r.1
  injecting-Ready ref bytes cr h alive sound referenced available ready =
      let runs = injection_feature-runs k laws stored ref cr h referenced in
      let (went, frame, is_true) =
        inject_kubeconfig-True m k s0 served keyed cr ref bytes h laws stored referenced ready in
      rw (and_then-on (injection_feature m k) (final_step m k) cr h (rw runs went)) (
        rw runs (
          final_step-Ready k laws stored _ _ (record {
            alive = rw frame.meta alive;
            sound =
                Frame-sound
                  (record {
                    missing = refl;
                    type_valid = refl;
                    in_use = refl;
                    secrets = refl;
                    image = refl;
                  })
                  frame sound;
            available = ap status? (frame.others hosted_cluster_available refl) ∙ available;
            injected = is_true;
          })))

  pub closing_features-Ready :
      (ref : ObjectReference) (a : Available m k order ref) (bytes : List ℕ) (v : DpfHcpBridge)
      (h : Trace)
      → v.meta.deletion_timestamp ≡ none
      → ¬ IsFailing m v.status.conditions
      → v.status.hosted_cluster_ref ≡ some ref
      → Ready (replay s0 h) v bytes
      → ((closing_features m k order v h).0.1 ≡ done)
        × ReadyLast m (closing_features m k order v h).1
  unfolding closing_features
  closing_features-Ready ref a bytes v h alive sound referenced ready =
      let (went, trace, frame, available) =
        sync-Available laws order ref a v h distinct referenced in
      let cr1 = (sync_status_from_hosted_cluster m k order v h).0.0 in
      let t1 = (sync_status_from_hosted_cluster m k order v h).1 in
      let refers = frame.hosted_cluster_ref ∙ referenced in
      let skips = set_ref_step-skip k laws stored ref v h referenced in
      let kept = replay-quiet s0 h t1 (rw trace (more _ refl same)) in
      rw (and_then-on (set_ref_step m k) _ v h (rw skips refl)) (
        rw skips (
          rw
            (and_then-on (sync_status_from_hosted_cluster m k order)
              (injection_feature m k and_then final_step m k) v h went)
            (injecting-Ready ref bytes cr1 t1 (rw frame.meta alive) (Frame-sound leaves frame sound)
              refers available (Ready-kept _ v cr1 bytes frame.meta frame.spec (rw kept ready)))))
