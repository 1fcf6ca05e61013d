-- ===== src/Report/Laws.antt =====
-- What reporting a condition does to the bridge and to the trace.
use dpf_hcp_bridge_operator.Base.{
  String, Bool, true, false, some, List, ◌≡◌, refl, ◌∙◌, ◌==◌, if◌then◌else◌, inl, inr, Bool-cases,
  inl, inr, Bool-cases,
}
use dpf_hcp_bridge_operator.Types.{DpfHcpBridge, ConditionStatus, Condition, with_conditions}
use dpf_hcp_bridge_operator.Platform.{
  Client, Meta, Trace, Call, EventType, ConditionView, ConditionLaws, seen, ok, Reply-cases,
  Feature, Action, Outcome, done, ◌and_then◌, stops, ◌>>=◌, call, on_reply, pure,
}
use dpf_hcp_bridge_operator.Platform.Only.{Only, same, only_rules}
use dpf_hcp_bridge_operator.Report.{
  with_outcome, report_with, condition_now, set_condition, emit_if, persist_status,
}

-- On success the server returns the status that was sent: the object it stores is the one of the
-- request, or the request fails with a conflict.
pub record StatusEcho (k : Client) : Type 0 where
  pub echo : (h : Trace) (b b' : DpfHcpBridge) → k.update_bridge_status h b ≡ ok b' → b' ≡ b

-- The bridge after a feature that sets conditions of the kinds in `own` only, and leaves the rest.
pub record Frame (m : Meta) (own : String → Bool) (cr cr' : DpfHcpBridge) : Type 0 where
  pub meta : cr'.meta ≡ cr.meta
  pub spec : cr'.spec ≡ cr.spec
  pub phase : cr'.status.phase ≡ cr.status.phase
  pub hosted_cluster_ref : cr'.status.hosted_cluster_ref ≡ cr.status.hosted_cluster_ref
  pub others :
      (kind : String)
      → own kind ≡ false
      → seen m cr'.status.conditions kind ≡ seen m cr.status.conditions kind

pub Frame-refl : {m : Meta} {own : String → Bool} (cr : DpfHcpBridge) → Frame m own cr cr
Frame-refl cr = record {
  meta = refl;
  spec = refl;
  phase = refl;
  hosted_cluster_ref = refl;
  others = λ kind out. refl;
}

pub Frame-trans :
    {m : Meta} {own : String → Bool} {a b c : DpfHcpBridge}
    → Frame m own a b
    → Frame m own b c
    → Frame m own a c
Frame-trans f g = record {
  meta = g.meta ∙ f.meta;
  spec = g.spec ∙ f.spec;
  phase = g.phase ∙ f.phase;
  hosted_cluster_ref = g.hosted_cluster_ref ∙ f.hosted_cluster_ref;
  others = λ kind out. g.others kind out ∙ f.others kind out;
}

pub Frame-weaken :
    {m : Meta} {own wider : String → Bool} {a b : DpfHcpBridge}
    → ((kind : String) → wider kind ≡ false → own kind ≡ false)
    → Frame m own a b
    → Frame m wider a b
Frame-weaken w f = record {
  meta = f.meta;
  spec = f.spec;
  phase = f.phase;
  hosted_cluster_ref = f.hosted_cluster_ref;
  others = λ kind out. f.others kind (w kind out);
}

-- A bridge with the metadata and the spec of another is that one with its own status.
pub same_but_status :
    (b b' : DpfHcpBridge)
    → b'.meta ≡ b.meta
    → b'.spec ≡ b.spec
    → record b { status = b'.status } ≡ b'
same_but_status b b' meta spec = cc (meta, spec)

-- What a reader sees of a condition that was just set.
abbrev pub reported_view : DpfHcpBridge → ConditionStatus → String → String → ConditionView
reported_view cr status reason message = record {
  status = status;
  reason = reason;
  message = message;
  observed_generation = cr.meta.generation;
}

-- Storing the status does not change the bridge in memory.
pub persist_status-bridge :
    {k : Client} → StatusEcho k → (cr : DpfHcpBridge) (h : Trace) → (persist_status k cr h).0.0 ≡ cr
unfolding persist_status ◌>>=◌ call on_reply pure
persist_status-bridge {k} e cr h = elim (Reply-cases (k.update_bridge_status h cr)) [
  | inl (b, stored) ↦ rw stored (e.echo h cr b stored)
  | inr (x, failed) ↦ rw failed refl
]

module _ {m : Meta} {k : Client} (laws : ConditionLaws m) (e : StatusEcho k) where
  -- The condition reads as it was set, whether or not the status could be stored.
  pub seen-report :
      (event_type : EventType) (kind : String) (status : ConditionStatus)
      (reason message event_message : String) (cr : DpfHcpBridge) (h : Trace) (x : String)
      → seen m
          (report_with m k event_type kind status reason message event_message cr
            h).0.0.status.conditions
          x
        ≡ (if kind == x
            then some (reported_view cr status reason message)
            else seen m cr.status.conditions x)
  unfolding report_with ◌>>=◌ call pure condition_now set_condition
  seen-report event_type kind status reason message event_message cr h x =
      rw (persist_status-bridge e) (laws.seen-set _ _ _ x)

  -- Nothing but the conditions of the bridge changes.
  pub report-bridge :
      (event_type : EventType) (kind : String) (status : ConditionStatus)
      (reason message event_message : String) (cr : DpfHcpBridge) (h : Trace)
      → (cs : List Condition) × ((report_with m k event_type kind status reason message
            event_message cr h).0.0
          ≡ with_conditions cr cs)
  unfolding report_with ◌>>=◌ call pure condition_now set_condition
  report-bridge event_type kind status reason message event_message cr h =
      (_, persist_status-bridge e _ _)

  pub report-Frame :
      (event_type : EventType) (kind : String) (status : ConditionStatus)
      (reason message event_message : String) (cr : DpfHcpBridge) (h : Trace)
      → Frame m
          (λ x. kind == x)
          cr
          (report_with m k event_type kind status reason message event_message cr h).0.0
  unfolding report_with ◌>>=◌ call pure condition_now set_condition
  report-Frame event_type kind status reason message event_message cr h =
      rw (persist_status-bridge e) (record {
        meta = refl;
        spec = refl;
        phase = refl;
        hosted_cluster_ref = refl;
        others = λ x out. laws.seen-set _ _ _ x ∙ rw out;
      })

-- Reporting only reads the clock, emits an event and stores the status.
abbrev pub reporting : Call → Bool
reporting (Call.now t) = true
reporting (Call.event t r s) = true
reporting (Call.update_bridge_status b r) = true
reporting _ = false

pub set_condition-Only :
    {allowed : Call → Bool} (m : Meta) (k : Client) (c : Condition) (cr : DpfHcpBridge)
    → Only allowed (set_condition m k c cr)
unfolding set_condition
set_condition-Only m k c cr = record { at = λ h. same }

pub report-Only :
    (m : Meta) (k : Client) (event_type : EventType) (kind : String) (status : ConditionStatus)
    (reason message event_message : String) (cr : DpfHcpBridge)
    → Only reporting (report_with m k event_type kind status reason message event_message cr)
unfolding report_with condition_now emit_if persist_status
report-Only m k event_type kind status reason message event_message cr =
    search (only_rules, set_condition-Only) depth 12

-- A pipeline that goes on to its end went through each of its features.
pub and_then-inversion :
    (f g : Feature) (cr : DpfHcpBridge) (h : Trace)
    → stops ((f and_then g) cr h).0.1 ≡ false
    → (stops (f cr h).0.1 ≡ false) × ((f and_then g) cr h ≡ g (f cr h).0.0 (f cr h).1)
unfolding ◌and_then◌ ◌>>=◌ pure
and_then-inversion f g cr h goes_on = elim (Bool-cases (stops (f cr h).0.1)) [
  | inl stopped ↦ cc (stopped, rw stopped at goes_on)
  | inr on ↦ (on, rw on refl)
]

-- A feature that goes on hands its bridge on to the next.
pub and_then-goes :
    (f g : Feature) (cr : DpfHcpBridge) (h : Trace)
    → stops (f cr h).0.1 ≡ false
    → (f and_then g) cr h ≡ g (f cr h).0.0 (f cr h).1
unfolding ◌and_then◌ ◌>>=◌ pure
and_then-goes f g cr h on = rw on refl

pub and_then-on :
    (f g : Feature) (cr : DpfHcpBridge) (h : Trace)
    → (f cr h).0.1 ≡ done
    → (f and_then g) cr h ≡ g (f cr h).0.0 (f cr h).1
and_then-on f g cr h on = and_then-goes f g cr h (rw on refl)

-- A feature that does nothing hands on to the next.
pub and_then-skip :
    (f g : Feature) (cr : DpfHcpBridge) (h : Trace)
    → f cr h ≡ ((cr, done), h)
    → (f and_then g) cr h ≡ g cr h
unfolding ◌and_then◌ ◌>>=◌ pure
and_then-skip f g cr h skips = rw skips refl

pub and_then-Frame :
    {m : Meta} {own : String → Bool} (f g : Feature) (cr : DpfHcpBridge) (h : Trace)
    → Frame m own cr (f cr h).0.0
    → ((b : DpfHcpBridge) (t : Trace) → Frame m own b (g b t).0.0)
    → Frame m own cr ((f and_then g) cr h).0.0
unfolding ◌and_then◌ ◌>>=◌ pure
and_then-Frame f g cr h of og = elim (Bool-cases (stops (f cr h).0.1)) [
  | inl stopped ↦ rw stopped of
  | inr on ↦ rw on (Frame-trans of (og (f cr h).0.0 (f cr h).1))
]

pub with_outcome-Only :
    {allowed : Call → Bool} (o : Outcome) (a : Action (DpfHcpBridge × Outcome))
    → Only allowed a
    → Only allowed (with_outcome o a)
unfolding with_outcome
with_outcome-Only o a oa = search (only_rules)
