-- ===== src/Controller/Reconcile/Validated.antt =====
-- What a bridge has passed once it is Pending after the validations of `Reconcile`.
use dpf_hcp_bridge_operator.Base.{
  String, Bool, false, List, ◌≡◌, ◌≢◌, refl, ◌∙◌, ap, ◌==◌, eq_iff, inl, inr, Option-cases, All,
}
use dpf_hcp_bridge_operator.Types.{
  DpfHcpBridge, DpuCluster, Condition, dpu_cluster_missing, cluster_type_valid, dpu_cluster_in_use,
  secrets_valid, bluefield_image_resolved, phase_pending,
}
use dpf_hcp_bridge_operator.Platform.{
  Client, Meta, Trace, Call, call, ConditionLaws, status_at, status?, ok, stops, ◌>>=◌, pure,
  ◌and_then◌, Action, Outcome, done,
}
use dpf_hcp_bridge_operator.Platform.Only.{Logged, Only-Logged}
use dpf_hcp_bridge_operator.Report.{set_condition, persist_status, condition_now}
use dpf_hcp_bridge_operator.Report.Laws.{
  StatusEcho, Frame-refl, Frame-trans, and_then-inversion, persist_status-bridge,
}
use dpf_hcp_bridge_operator.Report.Framed.{Framed, framed_rules, Framed-if, Framed-pure}
use dpf_hcp_bridge_operator.DpuCluster.{kamaji_cluster, find_conflict, validate_dpu_cluster}
use dpf_hcp_bridge_operator.DpuCluster.Exclusivity.{Harmless, find_conflict-none_iff}
use dpf_hcp_bridge_operator.DpuCluster.Verdict.{
  cluster_key, Checked, validate_dpu_cluster-Verdict, validate_dpu_cluster-Frame,
}
use dpf_hcp_bridge_operator.Secrets.{ssh_public_key_secret_key, pull_secret_key, validate_secrets}
use dpf_hcp_bridge_operator.Secrets.Outcome.{
  ssh_key, pull_key, Fetched, validate_secrets-Verdict, validate_secrets-Framed,
  validate_secrets-Only,
}
use dpf_hcp_bridge_operator.BlueField.Resolved.{resolve_bluefield_image-Framed}
use dpf_hcp_bridge_operator.Controller.PhaseLaws.{IsFailing, update_phase_exact}
use dpf_hcp_bridge_operator.Controller.Reconcile.{
  image_feature, enabled_image_feature, disable_image_validation, phase_step, validation_features,
}
use dpf_hcp_bridge_operator.Controller.Reconcile.Quiet.{image_feature-quiet}

-- The answers of the trace show a bridge that may be provisioned: its DPUCluster exists and is not
-- of the kamaji type, no other listed bridge references it, and both secrets hold their keys.
pub record Validated (cr : DpfHcpBridge) (t : Trace) : Type 0 where
  pub cluster : DpuCluster
  pub bridges : List DpfHcpBridge
  pub fetched : Logged (Call.get_dpu_cluster (cluster_key cr) (ok cluster)) t
  pub valid_type : cluster.kind ≢ kamaji_cluster
  pub listed : Logged (Call.list_bridges (ok bridges)) t
  pub exclusive : All (Harmless cr cluster) bridges
  pub ssh : Fetched (ssh_key cr) ssh_public_key_secret_key t
  pub pull : Fetched (pull_key cr) pull_secret_key t

Fetched-later :
    {key : _} {entry : String} {t u : Trace}
    → ((c : Call) → Logged c t → Logged c u)
    → Fetched key entry t
    → Fetched key entry u
Fetched-later later f = record { secret = f.secret; answer = later _ f.answer; has_key = f.has_key }

-- What was answered stays answered.
pub Validated-later :
    {cr : DpfHcpBridge} {t u : Trace}
    → ((c : Call) → Logged c t → Logged c u)
    → Validated cr t
    → Validated cr u
Validated-later later v = record {
  cluster = v.cluster;
  bridges = v.bridges;
  fetched = later _ v.fetched;
  valid_type = v.valid_type;
  listed = later _ v.listed;
  exclusive = v.exclusive;
  ssh = Fetched-later later v.ssh;
  pull = Fetched-later later v.pull;
}

abbrev pub image_condition : String → Bool
image_condition x = bluefield_image_resolved == x

module _ {m : Meta} {k : Client} (laws : ConditionLaws m) (e : StatusEcho k) where
  persist-Framed : {own : String → Bool} (cr : DpfHcpBridge) → Framed m own cr (persist_status k cr)
  persist-Framed cr = record { at = λ h. rw (persist_status-bridge e cr h) (Frame-refl cr) }

  -- A condition is set, and the bridge that it leaves handed on.
  set_then-Framed :
      (c : Condition) (cr : DpfHcpBridge)
      (f : DpfHcpBridge × Bool → Action (DpfHcpBridge × Outcome))
      → ((p : DpfHcpBridge × Bool) → Framed m (λ x. c.kind == x) p.0 (f p))
      → Framed m (λ x. c.kind == x) cr (set_condition m k c cr >>= f)
  unfolding set_condition ◌>>=◌
  set_then-Framed c cr f of = record {
    at = λ h.
        Frame-trans
          (record {
            meta = refl;
            spec = refl;
            phase = refl;
            hosted_cluster_ref = refl;
            others = λ x out. laws.seen-set _ _ _ x ∙ rw out;
          })
          ((of _).at h);
  }

  disable-Framed :
      (cr : DpfHcpBridge) → Framed m image_condition cr (disable_image_validation m k cr)
  unfolding disable_image_validation condition_now ◌>>=◌ call pure
  disable-Framed cr = record {
    at = λ h.
        (set_then-Framed _ cr _ (λ p. Framed-if p.1 _ _ (persist-Framed p.0) (Framed-pure done))).at
          _;
  }

  pub image_feature-Framed :
      (cr : DpfHcpBridge) → Framed m image_condition cr (image_feature m k cr)
  unfolding image_feature enabled_image_feature
  image_feature-Framed cr =
      search (framed_rules, disable-Framed, resolve_bluefield_image-Framed laws e) depth 12

  -- The facts that the three conditions of the DPUCluster stand for.
  cluster_facts :
      {cr cr1 : DpfHcpBridge} {t : Trace} (cr3 : DpfHcpBridge) (c : Checked m cr cr1 t)
      → ((kind : String)
          → secrets_valid == kind ≡ false
          → image_condition kind ≡ false
          → status_at m cr3.status.conditions kind ≡ status_at m cr1.status.conditions kind)
      → ¬ IsFailing m cr3.status.conditions
      → (c.cluster.kind ≢ kamaji_cluster) × All (Harmless cr c.cluster) c.bridges
  cluster_facts {cr} cr3 c same good = (
    λ y. good (
        inr (
          inl (
            same cluster_type_valid refl refl
            ∙ c.type_valid
            ∙ rw ((eq_iff c.cluster.kind kamaji_cluster).1 y) refl))),
    (find_conflict-none_iff cr c.cluster c.bridges).0
        (elim (Option-cases (find_conflict cr c.cluster c.bridges)) [
          | inl free ↦ free
          | inr (b, used) ↦
              absurd (
                good
                  (inr (inr (inl (same dpu_cluster_in_use refl refl ∙ c.in_use ∙ rw used refl)))))
        ]),
  )

  pub validation-Validated :
      (cr : DpfHcpBridge) (h : Trace)
      → stops (validation_features m k cr h).0.1 ≡ false
      → (phase_step m k
          (validation_features m k cr h).0.0
          (validation_features m k cr h).1).0.0.status.phase
        ≡ phase_pending
      → Validated cr (validation_features m k cr h).1
  unfolding validation_features phase_step pure
  validation-Validated cr h on pending =
      let f = validate_dpu_cluster m k in
      let g = validate_secrets m k in
      let u = image_feature m k in
      let cr1 = (f cr h).0.0 in
      let t1 = (f cr h).1 in
      let cr2 = (g cr1 t1).0.0 in
      let t2 = (g cr1 t1).1 in
      let p1 = and_then-inversion f (g and_then u) cr h on in
      let p2 = and_then-inversion g u cr1 t1 (rw p1.1 at on) in
      let q = p1.1 ∙ p2.1 in
      let cr3 = (u cr2 t2).0.0 in
      let w1 = validate_dpu_cluster-Frame laws e cr h in
      let w2 = (validate_secrets-Framed laws e cr1).at t1 in
      let w3 = (image_feature-Framed cr2).at t2 in
      let later =
        λ (c : Call) (l : Logged c t2). Only-Logged c t2 (image_feature-quiet m k cr2) l in
      let good = ((update_phase_exact m cr3).4.0 (rw q at pending)).1 in
      let same =
        λ (kind : String) (s : (secrets_valid == kind) ≡ false) (i : image_condition kind ≡ false).
          ap status? (w3.others kind i ∙ w2.others kind s) in
      rw q (elim (validate_dpu_cluster-Verdict laws e cr h p1.0) [
        | inl missing ↦ absurd (good (inl (same dpu_cluster_missing refl refl ∙ missing)))
        | inr c ↦
            let facts = cluster_facts cr3 c same good in
            elim (validate_secrets-Verdict laws e cr1 t1 p2.0) [
              | inl bad ↦
                  absurd
                    (good (inr (inr (inr (inl (ap status? (w3.others secrets_valid refl) ∙ bad))))))
              | inr (valid, ssh, pull) ↦ record {
                cluster = c.cluster;
                bridges = c.bridges;
                fetched = later _ (Only-Logged _ t1 (validate_secrets-Only m k cr1) c.fetched);
                valid_type = facts.0;
                listed = later _ (Only-Logged _ t1 (validate_secrets-Only m k cr1) c.listed);
                exclusive = facts.1;
                ssh = Fetched-later later (rw (w1.meta, w1.spec) at ssh);
                pull = Fetched-later later (rw (w1.meta, w1.spec) at pull);
              }
            ]
      ])
