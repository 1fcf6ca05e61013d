-- ===== src/Report/Same.antt =====
-- Actions that hand on the bridge that they were given, by one rule for each way to build an action.
use dpf_hcp_bridge_operator.Base.{false, ◌≡◌, refl, Bool-cases, inl, inr}
use dpf_hcp_bridge_operator.Types.{DpfHcpBridge}
use dpf_hcp_bridge_operator.Platform.{
  Trace, Action, Outcome, pure, ◌>>=◌, Feature, ◌and_then◌, stops,
}
use dpf_hcp_bridge_operator.Platform.Ends.{Ends, Ends-pure, ends_rules}
use dpf_hcp_bridge_operator.Report.Laws.{and_then-inversion}

-- Whatever the client answers, the bridge is the same behind the action.
abbrev pub Same : DpfHcpBridge → Action (DpfHcpBridge × Outcome) → Type 0
Same cr a = Ends (λ r. r.0.0 ≡ cr) a

pub Same-pure : {cr : DpfHcpBridge} (o : Outcome) → Same cr (pure (cr, o))
Same-pure {cr} o = Ends-pure (cr, o) (λ h. refl)

-- A pipeline that goes on went through both of its features, and the second one worked on the same
-- bridge.
pub and_then-Same :
    (f g : Feature) (cr : DpfHcpBridge) (h : Trace)
    → Same cr (f cr)
    → stops ((f and_then g) cr h).0.1 ≡ false
    → (stops (f cr h).0.1 ≡ false) × ((f and_then g) cr h ≡ g cr (f cr h).1)
and_then-Same f g cr h same goes_on =
    let (on, went) = and_then-inversion f g cr h goes_on in (on, rw (same.at h) at went)

pub Same-then :
    (f g : Feature) (cr : DpfHcpBridge)
    → Same cr (f cr)
    → Same cr (g cr)
    → Same cr ((f and_then g) cr)
unfolding ◌and_then◌ ◌>>=◌ pure
Same-then f g cr sf sg = record {
  at = λ h. elim (Bool-cases (stops (f cr h).0.1)) [
    | inl stopped ↦ rw stopped (sf.at h)
    | inr on ↦ rw on (rw (sf.at h) (sg.at (f cr h).1))
  ];
}

pub ruleset same_rules = (ends_rules, Same-pure)
