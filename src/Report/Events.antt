-- ===== src/Report/Events.antt =====
-- Reporting a condition that the bridge has already.
use dpf_hcp_bridge_operator.Base.{
  String, Bool, true, false, some, List, ◌∷◌, ◌≡◌, refl, ◌∙◌, ◌==◌, eq_iff, inl, inr, Bool-cases,
  ap, sym, if◌then◌else◌,
}
use dpf_hcp_bridge_operator.Types.{
  DpfHcpBridge, DpfHcpBridgeStatus, Condition, ConditionStatus, with_conditions,
}
use dpf_hcp_bridge_operator.Platform.{
  Client, Meta, Call, Trace, Outcome, Feature, EventType, ConditionLaws, ConditionView, seen, ◌>>=◌,
  call, pure,
}
use dpf_hcp_bridge_operator.Platform.Only.{Only, only_rules, Grows, same, more, Grows-trans}
use dpf_hcp_bridge_operator.Report.{
  report_with, condition_now, set_condition, emit_if, persist_status,
}
use dpf_hcp_bridge_operator.Report.Laws.{
  StatusEcho, Frame, same_but_status, reported_view, seen-report, report-bridge,
  persist_status-bridge,
}

-- The call emits no event.
abbrev pub silent : Call → Bool
silent (Call.event t r s) = false
silent _ = true

persist_status-silent : (k : Client) (cr : DpfHcpBridge) → Only silent (persist_status k cr)
unfolding persist_status
persist_status-silent k cr = search (only_rules)

-- From the trace, the run emits no event, and leaves every condition of the bridge as a reader saw it.
pub record Settled (m : Meta) (cr : DpfHcpBridge) (t : Trace) (r : (DpfHcpBridge × Outcome) × Trace)
    : Type 0 where
  pub no_event : Grows silent t r.1
  pub kept : (x : String) → seen m r.0.0.status.conditions x ≡ seen m cr.status.conditions x

pub Settled-after :
    {m : Meta} {cr : DpfHcpBridge} {t u : Trace} {r : (DpfHcpBridge × Outcome) × Trace}
    → Grows silent t u
    → Settled m cr u r
    → Settled m cr t r
Settled-after g s = record { no_event = Grows-trans g s.no_event; kept = s.kept }

-- Run from the bridge that an earlier run left, the feature emits no event and changes no condition.
abbrev pub Again : Meta → Feature → DpfHcpBridge → Trace → Trace → Type 0
Again m f cr h t = Settled m (f cr h).0.0 t (f (f cr h).0.0 t)

-- A write of what is read.
as_told :
    (m : Meta) (cs : List Condition) (kind x : String) (v : ConditionView)
    → seen m cs kind ≡ some v
    → (if kind == x then some v else seen m cs x) ≡ seen m cs x
as_told m cs kind x v told = elim (Bool-cases (kind == x)) [
  | inl y ↦ rw y (sym told ∙ ap (λ z. seen m cs z) ((eq_iff kind x).0 y))
  | inr n ↦ rw n refl
]

module _ {m : Meta} {k : Client} (laws : ConditionLaws m) (e : StatusEcho k) where
  -- A bridge that reads as the report would leave it.
  report-Settled :
      (event_type : EventType) (kind : String) (status : ConditionStatus)
      (reason message event_message : String) (cr : DpfHcpBridge) (t : Trace)
      → seen m cr.status.conditions kind ≡ some (reported_view cr status reason message)
      → Settled m cr t (report_with m k event_type kind status reason message event_message cr t)
  unfolding report_with condition_now set_condition emit_if ◌>>=◌ call pure
  report-Settled event_type kind status reason message event_message cr t told =
      let c : Condition = record {
        kind = kind;
        status = status;
        reason = reason;
        message = message;
        last_transition_time = k.now t;
        observed_generation = cr.meta.generation;
      } in
      let t' : Trace = Call.now (k.now t) ∷ t in
      let unchanged = (laws.unchanged_iff (k.now t') cr.status.conditions c).1 told in
      rw unchanged (record {
        no_event = Grows-trans (more _ refl same) ((persist_status-silent k _).at t');
        kept =
            λ x. rw (persist_status-bridge e) (laws.seen-set _ _ _ x ∙ as_told m _ kind x _ told);
      })

  -- What a report leaves, and that the bridge reads so.
  pub report-told :
      (event_type : EventType) (kind : String) (status : ConditionStatus)
      (reason message event_message : String) (cr : DpfHcpBridge) (h : Trace)
      → (cs : List Condition) × ((report_with m k event_type kind status reason message
            event_message cr h).0.0
          ≡ with_conditions cr cs)
        × (seen m cs kind ≡ some (reported_view cr status reason message))
  report-told event_type kind status reason message event_message cr h =
      let (cs, left) =
        report-bridge laws e event_type kind status reason message event_message cr h in
      let told = seen-report laws e event_type kind status reason message event_message cr h kind in
      let is_kind : (kind == kind) ≡ true = (eq_iff kind kind).1 refl in
      let read = (rw left at told) in (cs, left, rw is_kind at read)

  -- A handler that reports on the bridge in a shape that it keeps, with texts that the conditions of the
  -- bridge do not change, finds its own report again.
  pub handler-Again :
      (f : Feature) (shape : DpfHcpBridge → DpfHcpBridge) (event_type : EventType) (kind : String)
      (status : ConditionStatus) (reason : String) (message event_message : DpfHcpBridge → String)
      → ((b : DpfHcpBridge) (h : Trace)
          → let r =
              report_with m k event_type kind status reason
                (message b)
                (event_message b)
                (shape b)
                h in
            ((f b h).0.0 ≡ r.0.0) × ((f b h).1 ≡ r.1))
      → (cr : DpfHcpBridge)
      → ((cs : List Condition)
          → (message (with_conditions (shape cr) cs) ≡ message cr)
            × (shape (with_conditions (shape cr) cs) ≡ with_conditions (shape cr) cs))
      → (h t : Trace) → Again m f cr h t
  handler-Again f shape event_type kind status reason message event_message reports cr kept h t =
      let (cs, left, told) =
        report-told event_type kind status reason (message cr) (event_message cr) (shape cr) h in
      let b = with_conditions (shape cr) cs in
      let (texts, shaped) = kept cs in
      let (result, calls) = reports b t in
      let s =
        report-Settled event_type kind status reason (message b) (event_message b) b t
          (rw texts told) in
      rw ((reports cr h).0 ∙ left) (record {
        no_event = rw calls (rw shaped s.no_event);
        kept = λ x. rw result (rw shaped (s.kept x));
      })

-- A feature that does what another one does, whatever the status of the bridge.
pub Again-as :
    {m : Meta} {own : String → Bool} (f g : Feature) (steps : Trace → Trace) (cr : DpfHcpBridge)
    → ((h : Trace) → Frame m own cr (f cr h).0.0)
    → ((u : Trace) → Grows silent u (steps u))
    → ((s : DpfHcpBridgeStatus) (u : Trace)
        → f (record cr { status = s }) u ≡ g (record cr { status = s }) (steps u))
    → ((h t : Trace) → Again m g cr h t)
    → (h t : Trace) → Again m f cr h t
Again-as f g steps cr framed grows picks again h t =
    let cr' = (f cr h).0.0 in
    let first : f cr h ≡ g cr (steps h) = picks cr.status h in
    let second : f cr' t ≡ g cr' (steps t) =
      rw (same_but_status cr cr' (framed h).meta (framed h).spec) at (picks cr'.status t) in
    rw second (Settled-after (grows t) (rw first (again (steps h) (steps t))))
