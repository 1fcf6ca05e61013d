-- ===== src/HostedCluster/StatusSync/Laws.antt =====
-- Which conditions of the bridge mirror the HostedCluster.
use dpf_hcp_bridge_operator.Base.{
  String, Option, none, some, List, [], ◌∷◌, ◌≡◌, refl, ◌∙◌, ap, ◌==◌, eq_iff, arith, inl, inr,
  Bool-cases, Option-cases, if◌then◌else◌,
}
use dpf_hcp_bridge_operator.Types.{DpfHcpBridge, HostedCluster, Condition}
use dpf_hcp_bridge_operator.Platform.{
  Client, Meta, Trace, ConditionLaws, ConditionView, seen, pure, ◌>>=◌, on_option,
}
use dpf_hcp_bridge_operator.Report.{set_condition}
use dpf_hcp_bridge_operator.HostedCluster.StatusSync.{
  ConditionMapping, mirror_condition, mirror_conditions,
}

-- The type that is mirrored into `x`, if there is one.
abbrev pub source_of : List ConditionMapping → String → Option String
source_of [] x = none
source_of (mapping ∷ rest) x = if mapping.target == x then some mapping.source else source_of rest x

-- No target stands twice.
abbrev pub Distinct : List ConditionMapping → Type 0
Distinct [] = Unit
Distinct (mapping ∷ rest) = (source_of rest mapping.target ≡ none) × Distinct rest

-- What a reader sees of a mirrored condition.
abbrev pub mirror_view : DpfHcpBridge → Condition → ConditionView
mirror_view cr c = record {
  status = c.status;
  reason = c.reason;
  message = c.message;
  observed_generation = cr.meta.generation;
}

abbrev pub mirror? : DpfHcpBridge → Option Condition → Option ConditionView → Option ConditionView
mirror? cr none old = old
mirror? cr (some c) old = some (mirror_view cr c)

module _ {m : Meta} (k : Client) (laws : ConditionLaws m) (hc : HostedCluster) where
  -- The condition that the HostedCluster has for a mirrored type, and else the old one.
  abbrev pub mirrored : DpfHcpBridge → Option String → Option ConditionView → Option ConditionView
  mirrored cr none old = old
  mirrored cr (some source) old = mirror? cr (m.find_status_condition hc.conditions source) old

  step-meta :
      (mapping : ConditionMapping) (cr : DpfHcpBridge) (h : Trace)
      → (mirror_condition m k hc mapping cr h).0.meta ≡ cr.meta
  unfolding mirror_condition set_condition ◌>>=◌ pure on_option
  step-meta mapping cr h = ground arith

  step-seen :
      (mapping : ConditionMapping) (cr : DpfHcpBridge) (h : Trace) (x : String)
      → seen m (mirror_condition m k hc mapping cr h).0.status.conditions x ≡ (
          if mapping.target == x
          then mirrored cr (some mapping.source) (seen m cr.status.conditions x)
          else seen m cr.status.conditions x)
  unfolding mirror_condition set_condition ◌>>=◌ pure on_option
  step-seen mapping cr h x =
      elim (Option-cases (m.find_status_condition hc.conditions mapping.source)) [
        | inl e ↦ rw e (ground arith)
        | inr (c, e) ↦ rw e (laws.seen-set _ _ _ x)
      ]

  mirrored-eq_of_meta :
      (a b : DpfHcpBridge) (source : Option String) (old : Option ConditionView)
      → a.meta ≡ b.meta
      → mirrored a source old ≡ mirrored b source old
  mirrored-eq_of_meta a b source old e = ground arith

  -- Where the conditions behave as documented, and no target stands twice in the mappings: after the
  -- loop, in any order of the mappings, a condition that the HostedCluster has is the one
  -- that a reader sees under its target, with the generation of the bridge; all others stay.
  pub mirror_conditions_exact :
      (order : List ConditionMapping) (cr : DpfHcpBridge) (h : Trace) (x : String)
      → Distinct order
      → seen m (mirror_conditions m k hc order cr h).0.status.conditions x
        ≡ mirrored cr (source_of order x) (seen m cr.status.conditions x)
  unfolding mirror_conditions ◌>>=◌ pure
  mirror_conditions_exact [] cr h x d = refl
  mirror_conditions_exact (mapping ∷ rest) cr h x d =
      let r = mirror_condition m k hc mapping cr h in
      let ih = mirror_conditions_exact rest r.0 r.1 x d.1 in
      let s = step-seen mapping cr h x in
      let e = mirrored-eq_of_meta r.0 cr (source_of rest x) in
      elim (Bool-cases (mapping.target == x)) [
        | inl hit ↦
            let gone : source_of rest x ≡ none = (rw ((eq_iff mapping.target x).0 hit) at d.0) in
            rw hit (rw gone at ih ∙ (rw hit at s))
        | inr miss ↦
            rw miss (
              ih
              ∙ e _ (step-meta mapping cr h)
              ∙ ap (mirrored cr (source_of rest x)) (rw miss at s))
      ]
