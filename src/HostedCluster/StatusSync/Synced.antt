-- ===== src/HostedCluster/StatusSync/Synced.antt =====
-- What the status syncer leaves of the bridge, where the HostedCluster is found and has conditions.
use dpf_hcp_bridge_operator.Base.{
  String, Bool, false, Option, none, some, List, [], ◌∷◌, ◌≡◌, refl, ◌∙◌, ap, is_some, inl, inr,
  Option-cases,
}
use dpf_hcp_bridge_operator.Types.{
  DpfHcpBridge, HostedCluster, Condition, ObjectReference, with_conditions, condition_true,
  hosted_cluster_available,
}
use dpf_hcp_bridge_operator.Platform.{
  Client, Meta, Trace, Call, ConditionLaws, seen, status_at, status?, ok, done, pure, ◌>>=◌, call,
  on_reply, on_option,
}
use dpf_hcp_bridge_operator.Report.{set_condition}
use dpf_hcp_bridge_operator.Report.Laws.{Frame}
use dpf_hcp_bridge_operator.HostedCluster.StatusSync.{
  ConditionMapping, mirror_condition, mirror_conditions, sync_status_from_hosted_cluster,
}
use dpf_hcp_bridge_operator.HostedCluster.StatusSync.Laws.{
  source_of, Distinct, mirrored, mirror_conditions_exact,
}

-- The target of a mapping.
abbrev pub is_target : List ConditionMapping → String → Bool
is_target order x = is_some (source_of order x)

not_target : (o : Option String) → is_some o ≡ false → o ≡ none
not_target none e = refl
not_target (some x) e = absurd (cc e)

module _ {m : Meta} (k : Client) (laws : ConditionLaws m) (hc : HostedCluster) where
  mirror_condition-bridge :
      (mapping : ConditionMapping) (cr : DpfHcpBridge) (h : Trace)
      → (cs : List Condition) × (mirror_condition m k hc mapping cr h ≡ (with_conditions cr cs, h))
  unfolding mirror_condition set_condition ◌>>=◌ pure on_option
  mirror_condition-bridge mapping cr h = (
    (mirror_condition m k hc mapping cr h).0.status.conditions,
    elim (Option-cases (m.find_status_condition hc.conditions mapping.source)) [
      | inl e ↦ rw e refl
      | inr (c, e) ↦ rw e refl
    ],
  )

  mirror_conditions-bridge :
      (order : List ConditionMapping) (cr : DpfHcpBridge) (h : Trace)
      → (cs : List Condition) × (mirror_conditions m k hc order cr h ≡ (with_conditions cr cs, h))
  unfolding mirror_conditions ◌>>=◌ pure
  mirror_conditions-bridge [] cr h = (cr.status.conditions, refl)
  mirror_conditions-bridge (mapping ∷ rest) cr h =
      let (cs, first) = mirror_condition-bridge mapping cr h in
      let (ds, after) = mirror_conditions-bridge rest (with_conditions cr cs) h in
      (ds, rw first after)

  mirror_conditions-Frame :
      (order : List ConditionMapping) (cr : DpfHcpBridge) (h : Trace)
      → Distinct order
      → Frame m (is_target order) cr (mirror_conditions m k hc order cr h).0
  mirror_conditions-Frame order cr h distinct =
      let (cs, same) = mirror_conditions-bridge order cr h in
      let e = ap (λ r. r.0) same in
      record {
        meta = ap (λ b. b.meta) e;
        spec = ap (λ b. b.spec) e;
        phase = ap (λ b. b.status.phase) e;
        hosted_cluster_ref = ap (λ b. b.status.hosted_cluster_ref) e;
        others = λ kind out.
            mirror_conditions_exact k laws hc order cr h kind distinct
            ∙ ap (λ o. mirrored k laws hc cr o (seen m cr.status.conditions kind))
                (not_target _ out);
      }

-- The HostedCluster that the bridge refers to is found, and reports that it is available.
pub record Available (m : Meta) (k : Client) (order : List ConditionMapping) (ref : ObjectReference)
    : Type 0 where
  pub hc : HostedCluster
  pub found :
      (h : Trace)
      → k.get_hosted_cluster h (record { namespace = ref.namespace; name = ref.name }) ≡ ok hc
  pub first : Condition
  pub others : List Condition
  pub reports : hc.conditions ≡ first ∷ others
  pub source : String
  pub mapped : source_of order hosted_cluster_available ≡ some source
  pub condition : Condition
  pub has : m.find_status_condition hc.conditions source ≡ some condition
  pub available : condition.status ≡ condition_true

module _ {m : Meta} {k : Client} (laws : ConditionLaws m) where
  sync_found :
      (order : List ConditionMapping) (ref : ObjectReference) (a : Available m k order ref)
      (cr : DpfHcpBridge) (h : Trace)
      → cr.status.hosted_cluster_ref ≡ some ref
      → sync_status_from_hosted_cluster m k order cr h ≡ (
          let r = mirror_conditions m k a.hc order cr (
            Call.get_hosted_cluster
              (record { namespace = ref.namespace; name = ref.name })
              (ok a.hc)
            ∷ h) in
          ((r.0, done), r.1))
  unfolding sync_status_from_hosted_cluster ◌>>=◌ call on_reply on_option pure
  sync_found order ref a cr h referenced = simp (referenced, a.found h, a.reports) refl

  -- The syncer reads the HostedCluster, and the bridge reads available.
  pub sync-Available :
      (order : List ConditionMapping) (ref : ObjectReference) (a : Available m k order ref)
      (cr : DpfHcpBridge) (h : Trace)
      → Distinct order
      → cr.status.hosted_cluster_ref ≡ some ref
      → let r = sync_status_from_hosted_cluster m k order cr h in
        (r.0.1 ≡ done)
        × (r.1
            ≡ Call.get_hosted_cluster
                (record { namespace = ref.namespace; name = ref.name })
                (ok a.hc)
              ∷ h)
        × Frame m (is_target order) cr r.0.0
        × (status_at m r.0.0.status.conditions hosted_cluster_available ≡ some condition_true)
  sync-Available order ref a cr h distinct referenced =
      let h' : Trace =
        Call.get_hosted_cluster (record { namespace = ref.namespace; name = ref.name }) (ok a.hc)
        ∷ h in
      let seen_now : seen m (mirror_conditions m k a.hc order cr h').0.status.conditions
            hosted_cluster_available
          ≡ mirrored k laws a.hc cr (some a.source)
              (seen m cr.status.conditions hosted_cluster_available) =
        mirror_conditions_exact k laws a.hc order cr h' hosted_cluster_available distinct
        ∙ ap (λ o. mirrored k laws a.hc cr o (seen m cr.status.conditions hosted_cluster_available))
            a.mapped in
      rw (sync_found order ref a cr h referenced) (
        refl,
        ap (λ r. r.1) (mirror_conditions-bridge k laws a.hc order cr h').1,
        mirror_conditions-Frame k laws a.hc order cr h' distinct,
        ap status? (rw a.has at seen_now) ∙ ap some a.available,
      )
