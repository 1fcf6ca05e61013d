-- ===== src/Controller/Reconcile/Establishes.antt =====
-- What a whole `Reconcile` of a new bridge has established.
use dpf_hcp_bridge_operator.Base.{
  true, false, none, some, ◌≡◌, refl, ◌∙◌, ap, List, ◌∷◌, ◌⊎◌, inl, inr, Bool-cases, is_some,
}
use dpf_hcp_bridge_operator.Types.{DpfHcpBridge, NamespacedName, ready_condition, condition_true}
use dpf_hcp_bridge_operator.Platform.{
  Client, Meta, Trace, Call, ConditionLaws, status_at, status?, stops, ◌>>=◌, pure, call, on_reply,
  ok, ◌and_then◌, Feature,
}
use dpf_hcp_bridge_operator.Platform.Only.{Only-Keeps}
use dpf_hcp_bridge_operator.Report.Laws.{StatusEcho, and_then-inversion}
use dpf_hcp_bridge_operator.DpuCluster.{validate_dpu_cluster}
use dpf_hcp_bridge_operator.DpuCluster.Verdict.{validate_dpu_cluster-Frame}
use dpf_hcp_bridge_operator.Secrets.{validate_secrets}
use dpf_hcp_bridge_operator.Secrets.Outcome.{validate_secrets-Framed}
use dpf_hcp_bridge_operator.Finalizer.{CleanupHandler}
use dpf_hcp_bridge_operator.HostedCluster.StatusSync.{ConditionMapping}
use dpf_hcp_bridge_operator.Controller.Phase.{
  any_failed, validation_checks, update_phase_from_conditions,
}
use dpf_hcp_bridge_operator.Controller.PhaseLaws.{
  IsFailing, any_failed_iff, update_phase_exact, update_phase-meta, update_phase-spec,
  update_phase-ref, update_phase-conditions,
}
use dpf_hcp_bridge_operator.Controller.Deletion.{finalizer_name}
use dpf_hcp_bridge_operator.Controller.Reconcile.{
  is_pending, image_feature, validation_features, phase_step, provisioning_features,
  closing_features, features, reconcile_bridge, reconcile,
}
use dpf_hcp_bridge_operator.Controller.Reconcile.Quiet.{closing_features-quiet}
use dpf_hcp_bridge_operator.Controller.Reconcile.Validated.{image_feature-Framed}
use dpf_hcp_bridge_operator.Controller.Reconcile.Established.{
  Established, Established-later, provisioning_features-Established,
}

-- What the validations and the phase leave as it was.
pub record Unvalidated (m : Meta) (cr v : DpfHcpBridge) : Type 0 where
  pub meta : v.meta ≡ cr.meta
  pub spec : v.spec ≡ cr.spec
  pub hosted_cluster_ref : v.status.hosted_cluster_ref ≡ cr.status.hosted_cluster_ref
  pub ready :
      status_at m v.status.conditions ready_condition
      ≡ status_at m cr.status.conditions ready_condition

module _ {m : Meta} {k : Client} (laws : ConditionLaws m) (e : StatusEcho k) where
  pub validation-Unvalidated :
      (cr : DpfHcpBridge) (h : Trace)
      → stops (validation_features m k cr h).0.1 ≡ false
      → Unvalidated m cr (validation_features m k cr h).0.0
  unfolding validation_features
  validation-Unvalidated cr h on =
      let f = validate_dpu_cluster m k in
      let g = validate_secrets m k in
      let u = image_feature m k in
      let cr1 = (f cr h).0.0 in
      let t1 = (f cr h).1 in
      let cr2 = (g cr1 t1).0.0 in
      let t2 = (g cr1 t1).1 in
      let p1 = and_then-inversion f (g and_then u) cr h on in
      let p2 = and_then-inversion g u cr1 t1 (rw p1.1 at on) in
      let w1 = validate_dpu_cluster-Frame laws e cr h in
      let w2 = (validate_secrets-Framed laws e cr1).at t1 in
      let w3 = (image_feature-Framed laws e cr2).at t2 in
      rw (p1.1 ∙ p2.1) (record {
        meta = w3.meta ∙ w2.meta ∙ w1.meta;
        spec = w3.spec ∙ w2.spec ∙ w1.spec;
        hosted_cluster_ref = w3.hosted_cluster_ref ∙ w2.hosted_cluster_ref ∙ w1.hosted_cluster_ref;
        ready = ap status? (
            w3.others ready_condition refl
            ∙ w2.others ready_condition refl
            ∙ w1.others ready_condition refl);
      })

  -- A bridge that is Pending after the validations is provisioned.
  pending-is_pending :
      (cr : DpfHcpBridge)
      → cr.meta.deletion_timestamp ≡ none
      → ¬ IsFailing m cr.status.conditions
      → ¬ (status_at m cr.status.conditions ready_condition ≡ some condition_true)
      → cr.status.hosted_cluster_ref ≡ none
      → is_pending (update_phase_from_conditions m cr).status.phase ≡ true
  pending-is_pending cr alive sound unready unset =
      let exact = (update_phase_exact m cr).4.1 in
      rw (exact (alive, sound, unready, λ y. cc (y, unset))) refl

  -- The provisioning of a Pending bridge, and what follows it.
  rest-Established :
      (order : List ConditionMapping) (v : DpfHcpBridge) (t : Trace)
      → is_pending v.status.phase ≡ true
      → stops ((provisioning_features m k and_then closing_features m k order) v t).0.1 ≡ false
      → Established m v ((provisioning_features m k and_then closing_features m k order) v t).1
  rest-Established order v t pending goes_on =
      let (on, went) =
        and_then-inversion (provisioning_features m k) (closing_features m k order) v t goes_on in
      let p = provisioning_features m k v t in
      rw went (
        Established-later (Only-Keeps p.1 (closing_features-quiet m k order p.0.0))
          (provisioning_features-Established m k v t pending on))

  pub phase_step-then :
      (g : Feature) (w : DpfHcpBridge) (t : Trace)
      → (phase_step m k and_then g) w t ≡ g (update_phase_from_conditions m w) t
  unfolding phase_step ◌and_then◌ ◌>>=◌ pure
  phase_step-then g w t = refl

  features-Established :
      (order : List ConditionMapping) (cr : DpfHcpBridge) (h : Trace)
      → cr.meta.deletion_timestamp ≡ none
      → ¬ (status_at m cr.status.conditions ready_condition ≡ some condition_true)
      → cr.status.hosted_cluster_ref ≡ none
      → stops (features m k order cr h).0.1 ≡ false
      → let w = (validation_features m k cr h).0.0 in
        let v = update_phase_from_conditions m w in
        (v.meta ≡ cr.meta)
        × (v.spec ≡ cr.spec)
        × (IsFailing m w.status.conditions ⊎ Established m v (features m k order cr h).1)
  unfolding features
  features-Established order cr h alive unready unset goes_on =
      let w = (validation_features m k cr h).0.0 in
      let t = (validation_features m k cr h).1 in
      let v = update_phase_from_conditions m w in
      let rest = provisioning_features m k and_then closing_features m k order in
      let (on, went) =
        and_then-inversion (validation_features m k) (phase_step m k and_then rest) cr h goes_on in
      let same = went ∙ phase_step-then rest w t in
      let kept = validation-Unvalidated cr h on in
      (
        update_phase-meta m w ∙ kept.meta,
        update_phase-spec m w ∙ kept.spec,
        elim (Bool-cases (any_failed m w.status.conditions validation_checks)) [
          | inl failed ↦ inl ((any_failed_iff m w.status.conditions).0 failed)
          | inr sound ↦
              let pending =
                pending-is_pending w (rw kept.meta alive)
                  (λ y. cc ((any_failed_iff m w.status.conditions).1 y, sound))
                  (λ y. unready (rw kept.ready at y)) (kept.hosted_cluster_ref ∙ unset) in
              inr (rw same (rest-Established order v t pending (rw same at goes_on)))
        ],
      )

  -- Where the conditions behave as documented and the server stores the status that it is sent: a
  -- reconciliation of a bridge that is not being deleted, has the finalizer, is not Ready and has no
  -- reference to a HostedCluster, that returns without an error and without a requeue, left a
  -- validation condition bad, or: it read the pull secret and the SSH key, and the bridge, with its
  -- metadata and its spec, has both copies, its etcd encryption key, its HostedCluster and its
  -- NodePool. Each of these was found under the control of the bridge, or the API said that there is none and
  -- then stored it with the bridge as its controller: the copies with the content of the secrets that were read, the key of 32
  -- random bytes, the HostedCluster with the names of these three secrets, with the release image and
  -- with its services at the load balancer or at the preferred address of the first node, and the
  -- NodePool with the release image and no replicas.
  pub reconcile_establishes :
      (handlers : List CleanupHandler) (order : List ConditionMapping) (req : NamespacedName)
      (h : Trace) (b : DpfHcpBridge)
      → k.get_bridge h req ≡ ok b
      → b.meta.deletion_timestamp ≡ none
      → m.contains_finalizer b.meta finalizer_name ≡ true
      → ¬ (status_at m b.status.conditions ready_condition ≡ some condition_true)
      → b.status.hosted_cluster_ref ≡ none
      → stops (reconcile m k handlers order req h).0 ≡ false
      → let cr = update_phase_from_conditions m b in
        let w = (validation_features m k cr (Call.get_bridge req (ok b) ∷ h)).0.0 in
        let v = update_phase_from_conditions m w in
        (v.meta ≡ b.meta)
        × (v.spec ≡ b.spec)
        × (IsFailing m w.status.conditions ⊎ Established m v (reconcile m k handlers order req h).1)
  unfolding reconcile reconcile_bridge ◌>>=◌ call on_reply pure
  reconcile_establishes handlers order req h b got alive present unready unset completes =
      let h' : Trace = Call.get_bridge req (ok b) ∷ h in
      let cr = update_phase_from_conditions m b in
      let none_yet : cr.meta.deletion_timestamp ≡ none = rw (update_phase-meta m b) alive in
      let live : is_some cr.meta.deletion_timestamp ≡ false = rw none_yet refl in
      let has : m.contains_finalizer cr.meta finalizer_name ≡ true =
        rw (update_phase-meta m b) present in
      let (meta, spec, rest) =
        features-Established order cr h' none_yet
          (λ y. unready (rw (update_phase-conditions m b) at y)) (update_phase-ref m b ∙ unset)
          (simp (got, live, has) at completes) in
      (meta ∙ update_phase-meta m b, spec ∙ update_phase-spec m b, rw got (rw live (rw has rest)))
