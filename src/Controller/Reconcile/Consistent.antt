-- ===== src/Controller/Reconcile/Consistent.antt =====
-- The bridge that a completed `Reconcile` stores.
use dpf_hcp_bridge_operator.Base.{
  true, false, some, List, ◌∷◌, ◌≡◌, refl, ap, ◌∙◌, ◌↔◌, inl, inr, is_some,
}
use dpf_hcp_bridge_operator.Types.{
  DpfHcpBridge, DpfHcpBridgePhase, NamespacedName, condition_true, ready_condition,
  hosted_cluster_available, kubeconfig_injected,
}
use dpf_hcp_bridge_operator.Platform.{
  Client, Meta, Trace, Call, Feature, ConditionLaws, ◌and_then◌, status_at, status?, ok,
  Reply-cases, ◌>>=◌, pure, call, on_reply, stops,
}
use dpf_hcp_bridge_operator.Report.{persist_status}
use dpf_hcp_bridge_operator.Report.Laws.{StatusEcho, and_then-inversion}
use dpf_hcp_bridge_operator.HostedCluster.StatusSync.{
  ConditionMapping, sync_status_from_hosted_cluster,
}
use dpf_hcp_bridge_operator.Controller.Phase.{
  set_phase, update_phase_from_conditions, compute_ready_condition,
}
use dpf_hcp_bridge_operator.Controller.PhaseLaws.{
  update_phase-meta, update_phase-form, update_phase-conditions,
}
use dpf_hcp_bridge_operator.Controller.Ready.{compute_ready_exact}
use dpf_hcp_bridge_operator.Controller.Deletion.{finalizer_name}
use dpf_hcp_bridge_operator.Finalizer.{CleanupHandler}
use dpf_hcp_bridge_operator.Controller.Reconcile.{
  validation_features, phase_step, provisioning_features, set_ref_step, injection_feature,
  final_step, closing_features, features, reconcile_bridge, reconcile,
}

-- The phase is the one of the conditions, and Ready is True exactly when the HostedCluster is
-- available and the kubeconfig injected.
pub record Consistent (m : Meta) (b : DpfHcpBridge) : Type 0 where
  pub phase : update_phase_from_conditions m b ≡ b
  pub ready : (status_at m b.status.conditions ready_condition ≡ some condition_true) ↔ (
      (status_at m b.status.conditions hosted_cluster_available ≡ some condition_true)
      × (status_at m b.status.conditions kubeconfig_injected ≡ some condition_true))

-- The last call stored a consistent bridge.
abbrev pub StoredLast : Meta → Trace → Type 0
StoredLast m t =
    (b : DpfHcpBridge) × (before : Trace) × (t ≡ Call.update_bridge_status b (ok b) ∷ before)
    × Consistent m b

module _ (m : Meta) where
  -- The phase before does not matter, and only the phase is written.
  update_phase-set_phase :
      (b : DpfHcpBridge) (p : DpfHcpBridgePhase)
      → update_phase_from_conditions m (set_phase b p) ≡ update_phase_from_conditions m b
  unfolding update_phase_from_conditions
  update_phase-set_phase b p = refl

  update_phase-again :
      (b : DpfHcpBridge)
      → update_phase_from_conditions m (update_phase_from_conditions m b)
        ≡ update_phase_from_conditions m b
  update_phase-again b =
      ap (update_phase_from_conditions m) (update_phase-form m b)
      ∙ update_phase-set_phase b (update_phase_from_conditions m b).status.phase

compute_ready-Consistent :
    {m : Meta} (k : Client) (laws : ConditionLaws m) (b : DpfHcpBridge) (h : Trace)
    → Consistent m (update_phase_from_conditions m (compute_ready_condition m k b h).0)
compute_ready-Consistent {m} k laws b h =
    let cr = (compute_ready_condition m k b h).0 in
    let (exact, others, frame) = compute_ready_exact k laws b h in
    let hc = ap status? (frame.others hosted_cluster_available refl) in
    let kc = ap status? (frame.others kubeconfig_injected refl) in
    record {
      phase = update_phase-again m cr;
      ready = rw (update_phase-conditions m cr) (rw (hc, kc) exact);
    }

module _ {m : Meta} {k : Client} (laws : ConditionLaws m) (e : StatusEcho k) where
  final_step-StoredLast :
      (b : DpfHcpBridge) (h : Trace)
      → stops (final_step m k b h).0.1 ≡ false
      → StoredLast m (final_step m k b h).1
  unfolding final_step persist_status ◌>>=◌ call on_reply pure
  final_step-StoredLast b h goes_on =
      let (cr, h') = compute_ready_condition m k b h in
      let sent = update_phase_from_conditions m cr in
      elim (Reply-cases (k.update_bridge_status h' sent)) [
        | inr (x, failed) ↦ cc (rw failed at goes_on)
        | inl (stored, got) ↦
            let same = e.echo h' sent stored got in
            rw got (rw same (sent, h', refl, compute_ready-Consistent k laws b h))
      ]

  -- A step that, where it goes on, has stored a consistent bridge with its last call.
  abbrev Stores : Feature → Type 0
  Stores f = (b : DpfHcpBridge) (h : Trace) → stops (f b h).0.1 ≡ false → StoredLast m (f b h).1

  and_then-Stores : (f g : Feature) → Stores g → Stores (f and_then g)
  and_then-Stores f g stores b h goes_on =
      let (_, same) = and_then-inversion f g b h goes_on in
      rw same (stores (f b h).0.0 (f b h).1 (rw same at goes_on))

  features-Stores : (order : List ConditionMapping) → Stores (features m k order)
  unfolding features closing_features
  features-Stores order = and_then-Stores (validation_features m k) _ (
      and_then-Stores (phase_step m k) _ (
        and_then-Stores (provisioning_features m k) _ (
          and_then-Stores (set_ref_step m k) _ (
            and_then-Stores (sync_status_from_hosted_cluster m k order) _
              (and_then-Stores (injection_feature m k) (final_step m k) final_step-StoredLast)))))

  -- Where the conditions behave as documented and the server stores the status that it is sent: a
  -- reconciliation of a bridge that is not being deleted and has the finalizer, that returns without
  -- an error and without a requeue, ends with the store of a bridge whose phase is the one of its
  -- conditions, and which is Ready exactly when the HostedCluster is available and the kubeconfig
  -- injected.
  pub reconcile-StoredLast :
      (handlers : List CleanupHandler) (order : List ConditionMapping) (req : NamespacedName)
      (h : Trace) (b : DpfHcpBridge)
      → k.get_bridge h req ≡ ok b
      → is_some b.meta.deletion_timestamp ≡ false
      → m.contains_finalizer b.meta finalizer_name ≡ true
      → stops (reconcile m k handlers order req h).0 ≡ false
      → StoredLast m (reconcile m k handlers order req h).1
  unfolding reconcile reconcile_bridge ◌>>=◌ call on_reply pure
  reconcile-StoredLast handlers order req h b got alive present completes =
      let h' : Trace = Call.get_bridge req (ok b) ∷ h in
      let cr = update_phase_from_conditions m b in
      let live : is_some cr.meta.deletion_timestamp ≡ false = rw (update_phase-meta m b) alive in
      let has : m.contains_finalizer cr.meta finalizer_name ≡ true =
        rw (update_phase-meta m b) present in
      rw got (rw live (rw has (features-Stores order cr h' (simp (got, live, has) at completes))))
