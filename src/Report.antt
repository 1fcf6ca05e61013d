-- ===== src/Report.antt =====
-- The end that the handlers of the validators share: set a condition, emit an event if that changed
-- it, persist the status. Each handler of internal/controller writes these lines out.
pub mod Stored
pub mod Laws
pub mod Framed
pub mod Same
pub mod Events
use dpf_hcp_bridge_operator.Base.{String, if◌then◌else◌}
use dpf_hcp_bridge_operator.Types.{DpfHcpBridge, ConditionStatus, Condition, with_conditions}
use dpf_hcp_bridge_operator.Platform.{
  Client, Meta, Action, Outcome, pure, ◌>>=◌, ◌>>◌, call, on_reply, EventType, Feature, done, fail,
  api, now, event, update_bridge_status,
}
use dpf_hcp_bridge_operator.Base.{Bool}

-- `changed := meta.SetStatusCondition(&cr.Status.Conditions, condition)`. The helper reads the clock
-- where the condition has no time.
unfoldable pub set_condition :
    Meta → Client → Condition → DpfHcpBridge → Action (DpfHcpBridge × Bool)
set_condition m k c cr h =
    let (cs, changed) = m.set_status_condition (k.now h) cr.status.conditions c in
    ((with_conditions cr cs, changed), h)

-- `client.Status().Update(ctx, cr)`, which fills `cr` with the object that the server returns.
unfoldable pub persist_status : Client → Feature
persist_status k cr = do
  reply ← update_bridge_status k cr
  on_reply reply (λ b. pure (b, done)) (λ e. pure (cr, fail (api e)))

unfoldable pub emit_if : Bool → EventType → String → String → Action (Unit {0})
emit_if changed kind reason message = if changed then event kind reason message else pure tt

-- The condition that a handler builds. It holds the time of the call.
unfoldable pub condition_now :
    Client → DpfHcpBridge → String → ConditionStatus → String → String → Action Condition
condition_now k cr kind status reason message = do
  t ← now k
  pure (record {
    kind = kind;
    status = status;
    reason = reason;
    message = message;
    last_transition_time = t;
    observed_generation = cr.meta.generation;
  })

-- The event has a message of its own.
unfoldable pub report_with :
    Meta → Client → EventType → String → ConditionStatus → String → String → String → Feature
report_with m k event_type kind status reason message event_message cr = do
  condition ← condition_now k cr kind status reason message
  (cr', changed) ← set_condition m k condition cr
  emit_if changed event_type reason event_message
  persist_status k cr'

-- The event says what the condition says.
abbrev pub report : Meta → Client → EventType → String → ConditionStatus → String → String → Feature
report m k event_type kind status reason message =
    report_with m k event_type kind status reason message message

-- A handler that only logs a failure to store the status, and returns its own result.
unfoldable pub with_outcome :
    Outcome → Action (DpfHcpBridge × Outcome) → Action (DpfHcpBridge × Outcome)
with_outcome o a = do (cr, _) ← a; pure (cr, o)
