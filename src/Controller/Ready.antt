-- ===== src/Controller/Ready.antt =====
-- The Ready condition against the two requirements that it stands for.
use dpf_hcp_bridge_operator.Base.{
  String, Bool, some, ◌≡◌, refl, ◌↔◌, ◌∙◌, ap, inl, inr, Bool-cases, ◌==◌,
}
use dpf_hcp_bridge_operator.Types.{
  reason_hosted_cluster_not_ready, reason_kubeconfig_not_injected, DpfHcpBridge, condition_true,
  condition_false, hosted_cluster_available, kubeconfig_injected, ready_condition, ConditionStatus,
}
use dpf_hcp_bridge_operator.Platform.{
  Client, Meta, Trace, Call, ConditionLaws, status_at, status?, pure, ◌>>=◌,
}
use dpf_hcp_bridge_operator.Platform.Only.{Only, only_rules}
use dpf_hcp_bridge_operator.Report.{set_condition}
use dpf_hcp_bridge_operator.Report.Laws.{Frame, set_condition-Only}
use dpf_hcp_bridge_operator.Controller.Phase.{is_met, set_ready, compute_ready_condition}
use dpf_hcp_bridge_operator.Controller.PhaseLaws.{met_iff}

abbrev pub is_ready_kind : String → Bool
is_ready_kind x = ready_condition == x

-- Computing the Ready condition makes no call.
pub compute_ready_condition-Only :
    {allowed : Call → Bool} (m : Meta) (k : Client) (cr : DpfHcpBridge)
    → Only allowed (compute_ready_condition m k cr)
unfolding compute_ready_condition set_ready
compute_ready_condition-Only m k cr = search (only_rules, set_condition-Only)

module _ {m : Meta} (k : Client) (laws : ConditionLaws m) where
  set_ready-status :
      (status : ConditionStatus) (reason message : String) (cr : DpfHcpBridge) (h : Trace)
      → status_at m (set_ready m k status reason message cr h).0.status.conditions ready_condition
        ≡ some status
  unfolding set_ready set_condition ◌>>=◌ pure
  set_ready-status status reason message cr h = ap status? (laws.seen-set _ _ _ ready_condition)

  set_ready-Frame :
      (status : ConditionStatus) (reason message : String) (cr : DpfHcpBridge) (h : Trace)
      → Frame m is_ready_kind cr (set_ready m k status reason message cr h).0
  unfolding set_ready set_condition ◌>>=◌ pure
  set_ready-Frame status reason message cr h = record {
    meta = refl;
    spec = refl;
    phase = refl;
    hosted_cluster_ref = refl;
    others = λ x out. laws.seen-set _ _ _ x ∙ rw out;
  }

  -- Where the conditions behave as documented: Ready becomes True exactly when the HostedCluster is available and the kubeconfig injected, and
  -- False otherwise; nothing else changes.
  pub compute_ready_exact :
      (cr : DpfHcpBridge) (h : Trace)
      → let cr' = (compute_ready_condition m k cr h).0 in
        let met = λ (kind : String). status_at m cr.status.conditions kind ≡ some condition_true in
        ((status_at m cr'.status.conditions ready_condition ≡ some condition_true)
          ↔ (met hosted_cluster_available × met kubeconfig_injected))
        × ((¬ (met hosted_cluster_available × met kubeconfig_injected))
            → status_at m cr'.status.conditions ready_condition ≡ some condition_false)
        × Frame m is_ready_kind cr cr'
  unfolding compute_ready_condition
  compute_ready_exact cr h =
      let cs = cr.status.conditions in
      let a = met_iff (m.find_status_condition cs hosted_cluster_available) in
      let b = met_iff (m.find_status_condition cs kubeconfig_injected) in
      let no_hc_text : String = "Waiting for HostedCluster to become available" in
      let no_kc_text : String = "Waiting for kubeconfig injection to DPUCluster" in
      let f = set_ready-status condition_false reason_hosted_cluster_not_ready no_hc_text cr h in
      let g = set_ready-status condition_false reason_kubeconfig_not_injected no_kc_text cr h in
      elim (Bool-cases (is_met (m.find_status_condition cs hosted_cluster_available))) [
        | inr no_hc ↦ rw no_hc (
          (λ r. cc (r, f), λ p. cc (a.1 p.0, no_hc)),
          λ n. f,
          set_ready-Frame condition_false _ _ cr h,
        )
        | inl hc ↦
            rw hc (elim (Bool-cases (is_met (m.find_status_condition cs kubeconfig_injected))) [
              | inr no_kc ↦ rw no_kc (
                (λ r. cc (r, g), λ p. cc (b.1 p.1, no_kc)),
                λ n. g,
                set_ready-Frame condition_false _ _ cr h,
              )
              | inl kc ↦ rw kc (
                (λ r. (a.0 hc, b.0 kc), λ p. set_ready-status condition_true _ _ cr h),
                λ n. absurd (n (a.0 hc, b.0 kc)),
                set_ready-Frame condition_true _ _ cr h,
              )
            ])
      ]
