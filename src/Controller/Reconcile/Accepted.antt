-- ===== src/Controller/Reconcile/Accepted.antt =====
-- The validations of `Reconcile`, where there is nothing to object to.
use dpf_hcp_bridge_operator.Base.{false, some, none, List, ◌≡◌, refl, ◌∙◌, ap, sym, ◌≢◌, inl, inr}
use dpf_hcp_bridge_operator.Types.{
  DpfHcpBridge, DpfHcpBridgePhase, Condition, phase_failed, condition_true, condition_false,
  dpu_cluster_missing, cluster_type_valid, dpu_cluster_in_use, secrets_valid,
  bluefield_image_resolved,
}
use dpf_hcp_bridge_operator.Platform.{
  Client, Meta, Trace, ConditionLaws, status_at, status?, ok, stops, ◌and_then◌,
}
use dpf_hcp_bridge_operator.Report.Laws.{StatusEcho, and_then-on}
use dpf_hcp_bridge_operator.Platform.Only.{Grows, Grows-trans, Only-weaken}
use dpf_hcp_bridge_operator.DpuCluster.{validate_dpu_cluster}
use dpf_hcp_bridge_operator.DpuCluster.Accepted.{Assignable, validate_dpu_cluster-Accepted}
use dpf_hcp_bridge_operator.DpuCluster.Outcome.{validate_dpu_cluster-Only}
use dpf_hcp_bridge_operator.DpuCluster.Verdict.{validate_dpu_cluster-Frame}
use dpf_hcp_bridge_operator.Secrets.{validate_secrets}
use dpf_hcp_bridge_operator.Secrets.Accepted.{Readable, validate_secrets-Accepted}
use dpf_hcp_bridge_operator.Secrets.Outcome.{validate_secrets-Only, validate_secrets-Framed}
use dpf_hcp_bridge_operator.Kubeconfig.Delivery.Steps.{quiet}
use dpf_hcp_bridge_operator.Report.Laws.{same_but_status}
use dpf_hcp_bridge_operator.Controller.Phase.{update_phase_from_conditions}
use dpf_hcp_bridge_operator.Controller.PhaseLaws.{
  IsFailing, update_phase_exact, update_phase-conditions,
}
use dpf_hcp_bridge_operator.Controller.Reconcile.Validated.{image_feature-Framed}
use dpf_hcp_bridge_operator.Controller.Reconcile.Unwritten.{validating→quiet, reading_secrets→quiet}
use dpf_hcp_bridge_operator.Controller.Reconcile.Image.{
  ImageAcceptable, ImageAcceptable-same, image_feature-Accepted,
}
use dpf_hcp_bridge_operator.Controller.Reconcile.{
  validation_features, is_failed_phase, image_feature,
}

-- The server has what the validations of the bridge ask for, as long as no secret and no DPUCluster is
-- written.
pub record Acceptable (k : Client) (cr : DpfHcpBridge) (h : Trace) : Type 0 where
  pub cluster : Assignable k cr h
  pub secrets : (t : Trace) → Grows quiet h t → Readable k cr t
  pub image : (t : Trace) → Grows quiet h t → ImageAcceptable k cr t

-- Another status of the bridge changes nothing.
Readable-same :
    (k : Client) (b b' : DpfHcpBridge) (t : Trace)
    → b'.meta ≡ b.meta
    → b'.spec ≡ b.spec
    → Readable k b t
    → Readable k b' t
Readable-same k b b' t meta spec r =
    let moved : Readable k (record b { status = b'.status }) t = record {
      ssh = r.ssh;
      ssh_fetched = r.ssh_fetched;
      ssh_has_key = r.ssh_has_key;
      pull = r.pull;
      pull_fetched = r.pull_fetched;
      pull_has_key = r.pull_has_key;
    } in
    rw (sym (same_but_status b b' meta spec)) moved

failed_phase : (p : DpfHcpBridgePhase) → is_failed_phase p ≡ false → p ≢ phase_failed
failed_phase p sound e = cc (rw e at sound)

-- A bridge whose phase is the one of its conditions, and not Failed, has no bad condition.
unfailed_sound :
    (m : Meta) (b : DpfHcpBridge)
    → b.meta.deletion_timestamp ≡ none
    → is_failed_phase (update_phase_from_conditions m b).status.phase ≡ false
    → ¬ IsFailing m b.status.conditions
unfailed_sound m b alive unfailed failing =
    failed_phase _ unfailed ((update_phase_exact m b).1.1 (alive, failing))

none_bad :
    (m : Meta) (cs : List Condition)
    → status_at m cs dpu_cluster_missing ≡ some condition_false
    → status_at m cs cluster_type_valid ≡ some condition_true
    → status_at m cs dpu_cluster_in_use ≡ some condition_false
    → status_at m cs secrets_valid ≡ some condition_true
    → ¬ (status_at m cs bluefield_image_resolved ≡ some condition_false)
    → ¬ IsFailing m cs
none_bad m cs missing type_valid in_use secrets image (inl bad) = cc (missing, bad)
none_bad m cs missing type_valid in_use secrets image (inr (inl bad)) = cc (type_valid, bad)
none_bad m cs missing type_valid in_use secrets image (inr (inr (inl bad))) = cc (in_use, bad)
none_bad m cs missing type_valid in_use secrets image (inr (inr (inr (inl bad)))) =
    cc (secrets, bad)
none_bad m cs missing type_valid in_use secrets image (inr (inr (inr (inr bad)))) = image bad

module _ {m : Meta} {k : Client} (laws : ConditionLaws m) (e : StatusEcho k)
    (stored : (t : Trace) (b : DpfHcpBridge) → k.update_bridge_status t b ≡ ok b) where
  -- Where the conditions behave as documented and the server stores every status that it is sent: for a
  -- bridge that is not being deleted, in the phase of its conditions, whose DPUCluster is there, of
  -- another type than kamaji, and referenced by no other listed bridge, whose secrets both have their
  -- keys, and for which the validation of the image is disabled or the ConfigMap holds an image with a
  -- tag separator for its release, the validations go on and leave no validation condition bad.
  pub validation_features-Accepted :
      (b : DpfHcpBridge) (h : Trace)
      → b.meta.deletion_timestamp ≡ none
      → Acceptable k (update_phase_from_conditions m b) h
      → let r = validation_features m k (update_phase_from_conditions m b) h in
        (stops r.0.1 ≡ false) × ¬ IsFailing m r.0.0.status.conditions
  unfolding validation_features
  validation_features-Accepted b h alive a =
      let cr = update_phase_from_conditions m b in
      let f = validate_dpu_cluster m k in
      let g = validate_secrets m k in
      let u = image_feature m k in
      let cr1 = (f cr h).0.0 in
      let t1 = (f cr h).1 in
      let cr2 = (g cr1 t1).0.0 in
      let t2 = (g cr1 t1).1 in
      let w1 = validate_dpu_cluster-Frame laws e cr h in
      let w2 = (validate_secrets-Framed laws e cr1).at t1 in
      let w3 = (image_feature-Framed laws e cr2).at t2 in
      let g1 = (Only-weaken validating→quiet (validate_dpu_cluster-Only m k cr)).at h in
      let g2 = (Only-weaken reading_secrets→quiet (validate_secrets-Only m k cr1)).at t1 in
      let p1 = validate_dpu_cluster-Accepted laws e stored cr h a.cluster in
      let p2 =
        validate_secrets-Accepted laws e stored cr1 t1
          (Readable-same k cr cr1 t1 w1.meta w1.spec (a.secrets t1 g1)) in
      let image =
        ap status?
          (w2.others bluefield_image_resolved refl ∙ w1.others bluefield_image_resolved refl) in
      let p3 =
        image_feature-Accepted laws e stored cr2 t2
          (ImageAcceptable-same k cr cr2 t2 (w2.meta ∙ w1.meta) (w2.spec ∙ w1.spec)
            (a.image t2 (Grows-trans g1 g2)))
          (λ fine bad.
            unfailed_sound m b alive (rw (w2.phase ∙ w1.phase) at fine)
              (inr (inr (inr (inr (rw (update_phase-conditions m b) at (sym image ∙ bad))))))) in
      rw (and_then-on f (g and_then u) cr h p1.goes_on) (
        rw (and_then-on g u cr1 t1 p2.0) (
          rw p3.0 refl,
          none_bad m _
              (ap status? (w3.others dpu_cluster_missing refl)
                ∙ ap status? (w2.others dpu_cluster_missing refl)
                ∙ p1.missing)
              (ap status? (w3.others cluster_type_valid refl)
                ∙ ap status? (w2.others cluster_type_valid refl)
                ∙ p1.type_valid)
              (ap status? (w3.others dpu_cluster_in_use refl)
                ∙ ap status? (w2.others dpu_cluster_in_use refl)
                ∙ p1.in_use)
              (ap status? (w3.others secrets_valid refl) ∙ p2.1) p3.1,
        ))
