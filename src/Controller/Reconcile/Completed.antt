-- ===== src/Controller/Reconcile/Completed.antt =====
-- A whole `Reconcile` of a bridge whose HostedCluster is available and whose kubeconfig can be delivered.
use dpf_hcp_bridge_operator.Base.{
  ℕ, true, false, none, some, List, ◌∷◌, ◌≡◌, refl, ◌∙◌, inl, inr, is_some, Bool-cases,
}
use dpf_hcp_bridge_operator.Types.{DpfHcpBridge, NamespacedName, ObjectReference}
use dpf_hcp_bridge_operator.Platform.{
  Client, Meta, Trace, Call, ConditionLaws, ok, done, stops, pure, ◌>>=◌, call, on_reply,
  ◌and_then◌,
}
use dpf_hcp_bridge_operator.Platform.Only.{same, more}
use dpf_hcp_bridge_operator.Platform.Server.{Store, Served, Keyed, replay}
use dpf_hcp_bridge_operator.Report.Laws.{StatusEcho, and_then-goes, and_then-on}
use dpf_hcp_bridge_operator.Finalizer.{CleanupHandler}
use dpf_hcp_bridge_operator.HostedCluster.StatusSync.{ConditionMapping}
use dpf_hcp_bridge_operator.HostedCluster.StatusSync.Laws.{Distinct}
use dpf_hcp_bridge_operator.HostedCluster.StatusSync.Synced.{Available, is_target}
use dpf_hcp_bridge_operator.Kubeconfig.Delivery.Steps.{replay-quiet, after-quiet}
use dpf_hcp_bridge_operator.Kubeconfig.Delivery.Readiness.{Ready, Ready-kept}
use dpf_hcp_bridge_operator.Controller.Phase.{update_phase_from_conditions}
use dpf_hcp_bridge_operator.Controller.PhaseLaws.{
  IsFailing, update_phase_exact, update_phase-meta, update_phase-spec, update_phase-ref,
  update_phase-conditions,
}
use dpf_hcp_bridge_operator.Controller.Deletion.{finalizer_name}
use dpf_hcp_bridge_operator.Controller.Reconcile.{
  is_pending, validation_features, phase_step, provisioning_features, closing_features, features,
  reconcile_bridge, reconcile,
}
use dpf_hcp_bridge_operator.Controller.Reconcile.Guarded.{pending_phase, provisioning-blocked}
use dpf_hcp_bridge_operator.Controller.Reconcile.Establishes.{
  validation-Unvalidated, phase_step-then,
}
use dpf_hcp_bridge_operator.Controller.Reconcile.Unwritten.{validation-quiet}
use dpf_hcp_bridge_operator.Controller.Reconcile.Accepted.{Acceptable, validation_features-Accepted}
use dpf_hcp_bridge_operator.Controller.Reconcile.Readiness.{
  Leaves, ReadyLast, closing_features-Ready,
}

-- The phase of a bridge with a reference is not Pending.
referenced-blocked :
    (m : Meta) (cr : DpfHcpBridge) (ref : ObjectReference)
    → cr.status.hosted_cluster_ref ≡ some ref
    → is_pending (update_phase_from_conditions m cr).status.phase ≡ false
referenced-blocked m cr ref referenced =
    let v = update_phase_from_conditions m cr in
    elim (Bool-cases (is_pending v.status.phase)) [
      | inr blocked ↦ blocked
      | inl pending ↦
          let unset = ((update_phase_exact m cr).4.0 (pending_phase v.status.phase pending)).3 in
          absurd (unset (rw referenced refl))
    ]

module _ {m : Meta} (k : Client) (laws : ConditionLaws m)
    (stored : (t : Trace) (b : DpfHcpBridge) → k.update_bridge_status t b ≡ ok b) (s0 : Store)
    (served : Served s0 k) (keyed : Keyed s0) (order : List ConditionMapping)
    (distinct : Distinct order) (leaves : Leaves (is_target order)) where
  echoes : StatusEcho k
  echoes = record { echo = λ h b b' got. cc (got, stored h b) }

  -- Behind the validations of a bridge with a reference.
  validated-Ready :
      (ref : ObjectReference) (a : Available m k order ref) (bytes : List ℕ) (w : DpfHcpBridge)
      (t : Trace)
      → w.meta.deletion_timestamp ≡ none
      → ¬ IsFailing m w.status.conditions
      → w.status.hosted_cluster_ref ≡ some ref
      → Ready (replay s0 t) w bytes
      → let r =
          (phase_step m k and_then provisioning_features m k and_then closing_features m k order) w
            t in
        (r.0.1 ≡ done) × ReadyLast m r.1
  validated-Ready ref a bytes w t alive sound referenced ready =
      let v = update_phase_from_conditions m w in
      let blocked = provisioning-blocked laws echoes v t (referenced-blocked m w ref referenced) in
      let meta = update_phase-meta m w in
      rw
        (phase_step-then laws echoes (provisioning_features m k and_then closing_features m k order)
          w t)
        (rw
          (and_then-on (provisioning_features m k) (closing_features m k order) v t
            (rw blocked refl))
          (rw blocked (
            closing_features-Ready k laws stored s0 served keyed order distinct leaves ref a bytes v
              t (rw meta alive) (rw (update_phase-conditions m w) sound)
              (update_phase-ref m w ∙ referenced)
              (Ready-kept _ w v bytes meta (update_phase-spec m w) ready))))

  features-Ready :
      (ref : ObjectReference) (a : Available m k order ref) (bytes : List ℕ) (cr : DpfHcpBridge)
      (h : Trace)
      → cr.meta.deletion_timestamp ≡ none
      → cr.status.hosted_cluster_ref ≡ some ref
      → Ready (replay s0 h) cr bytes
      → stops (validation_features m k cr h).0.1 ≡ false
      → ¬ IsFailing m (validation_features m k cr h).0.0.status.conditions
      → let r = features m k order cr h in (r.0.1 ≡ done) × ReadyLast m r.1
  unfolding features
  features-Ready ref a bytes cr h alive referenced ready on sound =
      let w = (validation_features m k cr h).0.0 in
      let t = (validation_features m k cr h).1 in
      let kept = validation-Unvalidated laws echoes cr h on in
      let unwritten = after-quiet s0 (validation_features m k cr) h (validation-quiet m k cr) in
      rw (and_then-goes (validation_features m k) _ cr h on) (
        validated-Ready ref a bytes w t (rw kept.meta alive) sound
          (kept.hosted_cluster_ref ∙ referenced)
          (Ready-kept _ cr w bytes kept.meta kept.spec (rw unwritten ready)))

  -- Where the conditions behave as documented, and the server stores every status that it is sent,
  -- answers for secrets and DPUClusters from its store, has its objects under their own keys, and refuses
  -- to write only what it has not, or has already: take a bridge that is not being deleted, has the
  -- finalizer and refers to a HostedCluster that is found and reports that it is available, whose
  -- kubeconfig can be delivered (`Ready`: the source holds one, the DPUCluster exists, and the copy is
  -- absent or holds a kubeconfig of any content), and to which the validations have nothing to object
  -- (`Acceptable`: its DPUCluster is there, of another type than kamaji, and no other listed bridge
  -- references it; both secrets have their keys; the validation of the image is disabled, or the image
  -- can be resolved). Its reconciliation returns without an error and without a requeue, and its last call
  -- stores the bridge with the Ready condition True and in the phase Ready. The mirroring of the
  -- HostedCluster's conditions sets each target once, in any order, and none of the conditions of the
  -- validations.
  pub reconcile-ReadyLast :
      (handlers : List CleanupHandler) (req : NamespacedName) (ref : ObjectReference)
      (a : Available m k order ref) (bytes : List ℕ) (h : Trace) (b : DpfHcpBridge)
      → k.get_bridge h req ≡ ok b
      → b.meta.deletion_timestamp ≡ none
      → m.contains_finalizer b.meta finalizer_name ≡ true
      → b.status.hosted_cluster_ref ≡ some ref
      → Ready (replay s0 h) b bytes
      → Acceptable k (update_phase_from_conditions m b) (Call.get_bridge req (ok b) ∷ h)
      → let r = reconcile m k handlers order req h in (r.0 ≡ done) × ReadyLast m r.1
  unfolding reconcile reconcile_bridge ◌>>=◌ call on_reply pure
  reconcile-ReadyLast handlers req ref a bytes h b got alive present referenced ready v =
      let h' : Trace = Call.get_bridge req (ok b) ∷ h in
      let cr = update_phase_from_conditions m b in
      let meta = update_phase-meta m b in
      let (on, sound) = validation_features-Accepted laws echoes stored b h' alive v in
      let unwritten = replay-quiet s0 h h' (more _ refl same) in
      let lives : cr.meta.deletion_timestamp ≡ none = rw meta alive in
      let live : is_some cr.meta.deletion_timestamp ≡ false = rw lives refl in
      let has : m.contains_finalizer cr.meta finalizer_name ≡ true = rw meta present in
      rw got (
        rw live (
          rw has (
            features-Ready ref a bytes cr h' lives (update_phase-ref m b ∙ referenced)
              (Ready-kept _ b cr bytes meta (update_phase-spec m b) (rw unwritten ready)) on
              sound)))
