-- ===== src/Report/Framed.antt =====
-- What a feature leaves alone of the bridge, by one rule for each way to build a feature.
use dpf_hcp_bridge_operator.Base.{
  String, Bool, true, false, ◌≡◌, Option, none, some, ◌==◌, if◌then◌else◌,
}
use dpf_hcp_bridge_operator.Types.{DpfHcpBridge, ConditionStatus}
use dpf_hcp_bridge_operator.Platform.{
  Client, Meta, Trace, ConditionLaws, Reply, ok, err, ApiError, Action, Outcome, EventType, pure,
  ◌>>=◌, on_reply, on_option, Feature, ◌and_then◌,
}
use dpf_hcp_bridge_operator.Report.{report_with, with_outcome}
use dpf_hcp_bridge_operator.Report.Laws.{
  StatusEcho, Frame, Frame-refl, Frame-trans, Frame-weaken, report-Frame, and_then-Frame,
}

-- From `cr` the action sets conditions of the kinds in `own` only.
pub record Framed (m : Meta) (own : String → Bool) (cr : DpfHcpBridge)
    (a : Action (DpfHcpBridge × Outcome)) : Type 0 where
  pub at : (h : Trace) → Frame m own cr (a h).0.0

module _ {m : Meta} {own : String → Bool} {cr : DpfHcpBridge} where
  pub Framed-pure : (o : Outcome) → Framed m own cr (pure (cr, o))
  unfolding pure
  Framed-pure o = record { at = λ h. Frame-refl cr }

  pub Framed-if :
      (b : Bool) (x y : Action (DpfHcpBridge × Outcome))
      → Framed m own cr x
      → Framed m own cr y
      → Framed m own cr (if b then x else y)
  Framed-if true x y fx fy = fx
  Framed-if false x y fx fy = fy

  pub Framed-bind :
      {A : Type 0} (n : Action A) (f : A → Action (DpfHcpBridge × Outcome))
      → ((a : A) → Framed m own cr (f a))
      → Framed m own cr (n >>= f)
  unfolding ◌>>=◌
  Framed-bind n f of = record { at = λ h. (of (n h).0).at (n h).1 }

  pub Framed-reply :
      {A : Type 0} (r : Reply A) (f : A → Action (DpfHcpBridge × Outcome))
      (g : ApiError → Action (DpfHcpBridge × Outcome))
      → ((a : A) → Framed m own cr (f a))
      → ((x : ApiError) → Framed m own cr (g x))
      → Framed m own cr (on_reply r f g)
  unfolding on_reply
  Framed-reply (ok a) f g of og = of a
  Framed-reply (err x) f g of og = og x

  pub Framed-option :
      {A : Type 0} (o : Option A) (f : A → Action (DpfHcpBridge × Outcome))
      (y : Action (DpfHcpBridge × Outcome))
      → ((a : A) → Framed m own cr (f a))
      → Framed m own cr y
      → Framed m own cr (on_option o f y)
  unfolding on_option
  Framed-option (some a) f y of oy = of a
  Framed-option none f y of oy = oy

  pub Framed-then :
      (f g : Feature)
      → Framed m own cr (f cr)
      → ((b : DpfHcpBridge) → Framed m own b (g b))
      → Framed m own cr ((f and_then g) cr)
  Framed-then f g of og = record {
    at = λ h. and_then-Frame f g cr h (of.at h) (λ b t. (og b).at t);
  }

pub Framed-weaken :
    {m : Meta} {own wider : String → Bool} {cr : DpfHcpBridge} {a : Action (DpfHcpBridge × Outcome)}
    → ((kind : String) → wider kind ≡ false → own kind ≡ false)
    → Framed m own cr a
    → Framed m wider cr a
Framed-weaken w f = record { at = λ h. Frame-weaken w (f.at h) }

pub report-Framed :
    {m : Meta} {k : Client}
    → ConditionLaws m
    → StatusEcho k
    → (event_type : EventType) (kind : String) (status : ConditionStatus)
      (reason message event_message : String) (cr : DpfHcpBridge)
    → Framed m
        (λ x. kind == x)
        cr
        (report_with m k event_type kind status reason message event_message cr)
report-Framed laws e event_type kind status reason message event_message cr = record {
  at = λ h. report-Frame laws e event_type kind status reason message event_message cr h;
}

pub with_outcome-Framed :
    {m : Meta} {own : String → Bool} {cr : DpfHcpBridge} (o : Outcome)
    (a : Action (DpfHcpBridge × Outcome))
    → Framed m own cr a
    → Framed m own cr (with_outcome o a)
unfolding with_outcome ◌>>=◌ pure
with_outcome-Framed o a f = record { at = λ h. f.at h }

-- From a bridge that differs in what the frame does not speak of.
pub Framed-from :
    {m : Meta} {own : String → Bool} {cr b : DpfHcpBridge} {a : Action (DpfHcpBridge × Outcome)}
    → Frame m own cr b
    → Framed m own b a
    → Framed m own cr a
Framed-from step f = record { at = λ h. Frame-trans step (f.at h) }

pub ruleset framed_rules = (
  with_outcome-Framed, Framed-pure, Framed-if, Framed-bind, Framed-reply, Framed-option,
  Framed-then,
)
