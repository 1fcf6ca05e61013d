-- ===== src/Controller/PhaseLaws.antt =====
-- The phase against the conditions, as a reader sees them.
use dpf_hcp_bridge_operator.Base.{
  true, false, Option, none, some, List, ◌≡◌, ◌↔◌, ◌⊎◌, arith, is_some, refl, ap, inl, inr,
  Bool-cases,
}
use dpf_hcp_bridge_operator.Types.{
  DpfHcpBridge, Condition, condition_true, condition_false, phase_deleting, phase_failed,
  phase_ready, phase_provisioning, phase_pending, dpu_cluster_missing, cluster_type_valid,
  dpu_cluster_in_use, secrets_valid, bluefield_image_resolved, ready_condition,
}
use dpf_hcp_bridge_operator.Platform.{Meta, status_at, status?, view?}
use dpf_hcp_bridge_operator.Controller.Phase.{
  set_phase, is_failed, any_failed, is_met, validation_checks, update_phase_from_conditions,
}

-- A validation condition has its bad status.
abbrev pub IsFailing : Meta → List Condition → Type 0
IsFailing m cs =
    (status_at m cs dpu_cluster_missing ≡ some condition_true)
    ⊎ ((status_at m cs cluster_type_valid ≡ some condition_false)
        ⊎ ((status_at m cs dpu_cluster_in_use ≡ some condition_true)
            ⊎ ((status_at m cs secrets_valid ≡ some condition_false)
                ⊎ (status_at m cs bluefield_image_resolved ≡ some condition_false))))

negative_check :
    (o : Option Condition) → (is_failed true o ≡ true) ↔ (status? (view? o) ≡ some condition_true)
unfolding is_failed
negative_check o = ground arith

positive_check :
    (o : Option Condition) → (is_failed false o ≡ true) ↔ (status? (view? o) ≡ some condition_false)
unfolding is_failed
positive_check o = ground arith

pub met_iff : (o : Option Condition) → (is_met o ≡ true) ↔ (status? (view? o) ≡ some condition_true)
unfolding is_met
met_iff o = ground arith

module _ (m : Meta) where
  pub any_failed_iff :
      (cs : List Condition) → (any_failed m cs validation_checks ≡ true) ↔ IsFailing m cs
  unfolding any_failed
  any_failed_iff cs = ground (
    arith,
    negative_check (m.find_status_condition cs dpu_cluster_missing),
    positive_check (m.find_status_condition cs cluster_type_valid),
    negative_check (m.find_status_condition cs dpu_cluster_in_use),
    positive_check (m.find_status_condition cs secrets_valid),
    positive_check (m.find_status_condition cs bluefield_image_resolved),
  )

  -- The phase is Deleting exactly when the resource is being deleted; else Failed exactly when a
  -- validation condition is bad; else Ready exactly when the Ready condition is True; else
  -- Provisioning exactly when there is a HostedCluster reference; and Pending in all other cases.
  pub update_phase_exact :
      (cr : DpfHcpBridge)
      → let phase = (update_phase_from_conditions m cr).status.phase in
        let cs = cr.status.conditions in
        let alive = cr.meta.deletion_timestamp ≡ none in
        let is_ready = status_at m cs ready_condition ≡ some condition_true in
        let has_ref = is_some cr.status.hosted_cluster_ref ≡ true in
        ((phase ≡ phase_deleting) ↔ ¬ alive)
        × ((phase ≡ phase_failed) ↔ (alive × IsFailing m cs))
        × ((phase ≡ phase_ready) ↔ (alive × (¬ IsFailing m cs) × is_ready))
        × ((phase ≡ phase_provisioning) ↔ (alive × (¬ IsFailing m cs) × (¬ is_ready) × has_ref))
        × ((phase ≡ phase_pending) ↔ (alive × (¬ IsFailing m cs) × (¬ is_ready) × (¬ has_ref)))
  unfolding update_phase_from_conditions
  update_phase_exact cr = ground (
    arith,
    any_failed_iff cr.status.conditions,
    met_iff (m.find_status_condition cr.status.conditions ready_condition),
  )

  -- Only the phase of the status is written.
  pub update_phase-meta : (cr : DpfHcpBridge) → (update_phase_from_conditions m cr).meta ≡ cr.meta
  unfolding update_phase_from_conditions
  update_phase-meta cr = ground arith

  pub update_phase-spec : (cr : DpfHcpBridge) → (update_phase_from_conditions m cr).spec ≡ cr.spec
  unfolding update_phase_from_conditions
  update_phase-spec cr = ground arith

  pub update_phase-form :
      (b : DpfHcpBridge)
      → update_phase_from_conditions m b
        ≡ set_phase b (update_phase_from_conditions m b).status.phase
  unfolding update_phase_from_conditions
  update_phase-form b = elim (Bool-cases (is_some b.meta.deletion_timestamp)) [
    | inl y ↦ rw y refl
    | inr n ↦ rw n (elim (Bool-cases (any_failed m b.status.conditions validation_checks)) [
      | inl y ↦ rw y refl
      | inr n ↦
          rw n (elim (Bool-cases (is_met (m.find_status_condition b.status.conditions "Ready"))) [
            | inl y ↦ rw y refl
            | inr n ↦ rw n (elim (Bool-cases (is_some b.status.hosted_cluster_ref)) [
              | inl y ↦ rw y refl
              | inr n ↦ rw n refl
            ])
          ])
    ])
  ]

  pub update_phase-conditions :
      (b : DpfHcpBridge)
      → (update_phase_from_conditions m b).status.conditions ≡ b.status.conditions
  update_phase-conditions b = ap (λ x. x.status.conditions) (update_phase-form b)

  pub update_phase-ref :
      (cr : DpfHcpBridge)
      → (update_phase_from_conditions m cr).status.hosted_cluster_ref ≡ cr.status.hosted_cluster_ref
  update_phase-ref cr = ap (λ x. x.status.hosted_cluster_ref) (update_phase-form cr)
