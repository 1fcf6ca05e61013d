-- ===== src/Controller/Reconcile/Guarded.antt =====
-- When `Reconcile` creates a HostedCluster or a NodePool.
use dpf_hcp_bridge_operator.Base.{
  true, false, List, ◌≡◌, refl, ◌∙◌, arith, ◌⊎◌, inl, inr, is_some, Bool-cases,
}
use dpf_hcp_bridge_operator.Types.{DpfHcpBridge, phase_pending, DpfHcpBridgePhase}
use dpf_hcp_bridge_operator.Platform.{
  Client, Meta, Trace, Call, ConditionLaws, stops, ◌>>=◌, pure, ◌and_then◌, Feature, Action, done,
}
use dpf_hcp_bridge_operator.Platform.Only.{
  Only, only_rules, Made, Only-Made, Only-Logged, Only-then, Only-weaken, Only-if, Only-pure,
}
use dpf_hcp_bridge_operator.Report.Laws.{StatusEcho, and_then-skip}
use dpf_hcp_bridge_operator.Finalizer.{CleanupHandler}
use dpf_hcp_bridge_operator.HostedCluster.StatusSync.{ConditionMapping}
use dpf_hcp_bridge_operator.Controller.Deletion.{finalizer_name, registered_handlers}
use dpf_hcp_bridge_operator.Controller.Deletion.Laws.{deleting, handle_deletion-Only}
use dpf_hcp_bridge_operator.Controller.Reconcile.{
  is_pending, phase_step, secrets_feature, creation_feature, provisioning_features,
  validation_features, closing_features, features, add_finalizer_step, reconcile_bridge,
}
use dpf_hcp_bridge_operator.Controller.Reconcile.Quiet.{
  provisions, quiet, anything, Only-anything, validation_features-quiet,
  provisioning_features-anything, closing_features-quiet,
}
use dpf_hcp_bridge_operator.Controller.Reconcile.Validated.{
  Validated, Validated-later, validation-Validated,
}

-- A HostedCluster or a NodePool was created, or its creation tried.
abbrev pub Provisioned : Trace → Type 0
Provisioned t = Made provisions t

not_quiet : (c : Call) → quiet c ≡ true → provisions c ≡ false
not_quiet c h = ground arith

-- Quiet calls provision nothing.
quiet_growth :
    {A : Type 0} {n : Action A} (h : Trace) → Only quiet n → Provisioned (n h).1 → Provisioned h
quiet_growth h o p = Only-Made not_quiet h o p

pub pending_phase : (p : DpfHcpBridgePhase) → is_pending p ≡ true → p ≡ phase_pending
pending_phase p h = ground arith

module _ {m : Meta} {k : Client} (laws : ConditionLaws m) (e : StatusEcho k) where
  abbrev rest : List ConditionMapping → Feature
  rest order = provisioning_features m k and_then closing_features m k order

  rest-anything :
      (order : List ConditionMapping) (cr : DpfHcpBridge) → Only anything (rest order cr)
  rest-anything order cr =
      Only-then _ _ cr (provisioning_features-anything m k cr)
        (λ b. Only-anything (closing_features-quiet m k order b))

  secrets-blocked :
      (cr : DpfHcpBridge) (h : Trace)
      → is_pending cr.status.phase ≡ false
      → secrets_feature m k cr h ≡ ((cr, done), h)
  unfolding secrets_feature pure
  secrets-blocked cr h blocked = rw blocked refl

  creation-blocked :
      (cr : DpfHcpBridge) (h : Trace)
      → is_pending cr.status.phase ≡ false
      → creation_feature m k cr h ≡ ((cr, done), h)
  unfolding creation_feature pure
  creation-blocked cr h blocked = rw blocked refl

  pub provisioning-blocked :
      (cr : DpfHcpBridge) (h : Trace)
      → is_pending cr.status.phase ≡ false
      → provisioning_features m k cr h ≡ ((cr, done), h)
  unfolding provisioning_features
  provisioning-blocked cr h blocked =
      and_then-skip _ _ cr h (secrets-blocked cr h blocked) ∙ creation-blocked cr h blocked

  -- In another phase nothing is provisioned.
  rest-blocked :
      (order : List ConditionMapping) (cr : DpfHcpBridge) (h : Trace)
      → is_pending cr.status.phase ≡ false
      → rest order cr h ≡ closing_features m k order cr h
  rest-blocked order cr h blocked = and_then-skip _ _ cr h (provisioning-blocked cr h blocked)

  features-goes_on :
      (order : List ConditionMapping) (cr : DpfHcpBridge) (h : Trace)
      → stops (validation_features m k cr h).0.1 ≡ false
      → let cr1 = (validation_features m k cr h).0.0 in
        let t1 = (validation_features m k cr h).1 in
        features m k order cr h ≡ rest order (phase_step m k cr1 t1).0.0 t1
  unfolding features phase_step ◌and_then◌ ◌>>=◌ pure
  features-goes_on order cr h on = rw on refl

  features-stopped :
      (order : List ConditionMapping) (cr : DpfHcpBridge) (h : Trace)
      → stops (validation_features m k cr h).0.1 ≡ true
      → features m k order cr h ≡ validation_features m k cr h
  unfolding features ◌and_then◌ ◌>>=◌ pure
  features-stopped order cr h stopped = rw stopped refl

  -- The features create something only for a validated bridge.
  pub features-guarded :
      (order : List ConditionMapping) (cr : DpfHcpBridge) (h : Trace)
      → Provisioned (features m k order cr h).1
      → Provisioned h ⊎ Validated cr (features m k order cr h).1
  features-guarded order cr h p =
      let v = validation_features m k cr h in
      let cr2 = (phase_step m k v.0.0 v.1).0.0 in
      elim (Bool-cases (stops v.0.1)) [
        | inl stopped ↦ inl (
            quiet_growth h (validation_features-quiet m k cr)
              (rw (features-stopped order cr h stopped) at p))
        | inr on ↦
            let q = features-goes_on order cr h on in
            elim (Bool-cases (is_pending cr2.status.phase)) [
              | inl pending ↦ inr (
                  rw q (
                    Validated-later (λ c l. Only-Logged c v.1 (rest-anything order cr2) l)
                      (validation-Validated laws e cr h on
                        (pending_phase cr2.status.phase pending))))
              | inr blocked ↦ inl (
                  quiet_growth h (validation_features-quiet m k cr) (
                    quiet_growth v.1 (closing_features-quiet m k order cr2)
                      (rw (q ∙ rest-blocked order cr2 v.1 blocked) at p)))
            ]
      ]

  deleting→quiet : (c : Call) → deleting c ≡ true → quiet c ≡ true
  deleting→quiet c h = ground arith

  add_finalizer-quiet : (cr : DpfHcpBridge) → Only quiet (add_finalizer_step m k cr)
  unfolding add_finalizer_step
  add_finalizer-quiet cr = search (only_rules)

  bridge-live :
      (handlers : List CleanupHandler) (order : List ConditionMapping) (cr : DpfHcpBridge)
      (h : Trace)
      → is_some cr.meta.deletion_timestamp ≡ false
      → m.contains_finalizer cr.meta finalizer_name ≡ true
      → reconcile_bridge m k handlers order cr h ≡ features m k order cr h
  unfolding reconcile_bridge
  bridge-live handlers order cr h alive present = simp (alive, present) refl

  pub bridge-guarded :
      (order : List ConditionMapping) (cr : DpfHcpBridge) (h : Trace)
      → let t = (reconcile_bridge m k (registered_handlers k) order cr h).1 in
        Provisioned t
        → Provisioned h
          ⊎ ((is_some cr.meta.deletion_timestamp ≡ false)
              × (m.contains_finalizer cr.meta finalizer_name ≡ true)
              × Validated cr t)
  unfolding reconcile_bridge
  bridge-guarded order cr h p = elim (Bool-cases (is_some cr.meta.deletion_timestamp)) [
    | inl deleted ↦ inl (
        quiet_growth h (Only-weaken deleting→quiet (handle_deletion-Only k m cr))
          (simp deleted at p))
    | inr alive ↦ elim (Bool-cases (m.contains_finalizer cr.meta finalizer_name)) [
      | inr missing ↦ inl (quiet_growth h (add_finalizer-quiet cr) (simp (alive, missing) at p))
      | inl present ↦
          let q = bridge-live (registered_handlers k) order cr h alive present in
          elim (features-guarded order cr h (rw q at p)) [
            | inl before ↦ inl before
            | inr v ↦ inr (alive, present, rw q v)
          ]
    ]
  ]

  features-anything :
      (order : List ConditionMapping) (cr : DpfHcpBridge) → Only anything (features m k order cr)
  unfolding features phase_step
  features-anything order cr =
      Only-then _ _ cr (Only-anything (validation_features-quiet m k cr))
        (λ b. Only-then _ _ b (Only-pure _) (rest-anything order))

  pub bridge-anything :
      (order : List ConditionMapping) (cr : DpfHcpBridge)
      → Only anything (reconcile_bridge m k (registered_handlers k) order cr)
  unfolding reconcile_bridge
  bridge-anything order cr =
      Only-if _ _ _ (Only-anything (handle_deletion-Only k m cr))
        (Only-if _ _ _ (Only-anything (add_finalizer-quiet cr)) (features-anything order cr))
