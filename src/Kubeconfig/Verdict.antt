-- ===== src/Kubeconfig/Verdict.antt =====
-- What an injection reports, on every branch of injector.go.
use dpf_hcp_bridge_operator.Base.{
  String, Bool, true, false, some, [], ◌∷◌, ◌≡◌, refl, inl, inr, Option, none, is_some, ◌∙◌, ◌⊎◌,
}
use dpf_hcp_bridge_operator.Base.Text.{sprintf}
use dpf_hcp_bridge_operator.Types.{
  DpfHcpBridge, Condition, ConditionStatus, ObjectReference, condition_true, condition_false,
  kubeconfig_injected, reason_kubeconfig_injected, reason_kubeconfig_pending,
  reason_kubeconfig_injection_failed,
}
use dpf_hcp_bridge_operator.Platform.{
  Client, Meta, Trace, Call, Reply, Reply-cases, ok, err, done, Failure, error_text, Outcome,
  ConditionLaws, ConditionView, view, seen, fail, stops, pure, ◌>>=◌, call, on_reply, on_option,
}
use dpf_hcp_bridge_operator.Platform.Ends.{Ends, Ends-some, ends_rules}
use dpf_hcp_bridge_operator.Report.{set_condition, emit_if}
use dpf_hcp_bridge_operator.Kubeconfig.Injector.{
  warning_if_false, set_injected, injection_failed, finish_with, injected, complete_injection,
  update_reference_step, write_secret_step, inject_available, inject_kubeconfig,
}

-- A reader of the bridge sees KubeConfigInjected with this status, reason and message.
pub record Says (m : Meta) (b : DpfHcpBridge) (status : ConditionStatus) (reason message : String)
    : Type 0 where
  pub shown : ConditionView
  pub here : seen m b.status.conditions kubeconfig_injected ≡ some shown
  pub status_shown : shown.status ≡ status
  pub reason_shown : shown.reason ≡ reason
  pub message_shown : shown.message ≡ message

abbrev pub refused : Reply DpfHcpBridge → Bool
refused (ok b) = false
refused (err e) = true

-- The bridge in memory behind the call.
abbrev pub returned : DpfHcpBridge → Reply DpfHcpBridge → DpfHcpBridge
returned sent (ok b) = b
returned sent (err e) = sent

-- Nothing went wrong, and the injection stops only where the status is refused; or a step failed, whose
-- error is returned and stands in the message.
abbrev pub Verdict : Meta → DpfHcpBridge → Reply DpfHcpBridge → Outcome → Type 0
Verdict m b reply o =
    ((message : String) × (Says m b condition_true reason_kubeconfig_injected message
        ⊎ Says m b condition_false reason_kubeconfig_pending message)
      × (stops o ≡ refused reply))
    ⊎ ((x : Failure) × (text : String) × Says m b condition_false reason_kubeconfig_injection_failed
          (sprintf (text ∷ ": " ∷ error_text x ∷ []))
        × (o ≡ fail x))

-- The last call sends the status with the verdict.
pub record Reports (m : Meta) (r : (DpfHcpBridge × Outcome) × Trace) : Type 0 where
  pub sent : DpfHcpBridge
  pub reply : Reply DpfHcpBridge
  pub before : Trace
  pub last : r.1 ≡ Call.update_bridge_status sent reply ∷ before
  pub result : r.0.0 ≡ returned sent reply
  pub verdict : Verdict m sent reply r.0.1

stops_with : (o : Option Failure) → stops (on_option o fail done) ≡ is_some o
unfolding on_option
stops_with none = refl
stops_with (some x) = refl

-- The bridge that the setting of the condition sends, and the calls before.
record Sends (m : Meta) (k : Client) (status : ConditionStatus) (reason message : String)
    (r : (DpfHcpBridge × Option Failure) × Trace) : Type 0 where
  sent : DpfHcpBridge
  before : Trace
  says : Says m sent status reason message
  answered :
      (r.1 ≡ Call.update_bridge_status sent (k.update_bridge_status before sent) ∷ before)
      × (r.0.0 ≡ returned sent (k.update_bridge_status before sent))
      × (is_some r.0.1 ≡ refused (k.update_bridge_status before sent))

module _ {m : Meta} (k : Client) (laws : ConditionLaws m) where
  set_injected-Sends :
      (status : ConditionStatus) (reason message : String) (b : DpfHcpBridge) (h : Trace)
      → Sends m k status reason message (set_injected m k status reason message b h)
  unfolding set_injected set_condition ◌>>=◌ call on_reply pure
  set_injected-Sends status reason message b h =
      let c : Condition = record {
        kind = kubeconfig_injected;
        status = status;
        reason = reason;
        message = message;
        last_transition_time = 0;
        observed_generation = b.meta.generation;
      } in
      let (set, t) = set_condition m k c b h in
      let t' = (emit_if set.1 (warning_if_false status) reason message t).1 in
      record {
        sent = set.0;
        before = t';
        says = record {
          shown = view c;
          here = laws.seen-set _ _ _ kubeconfig_injected;
          status_shown = refl;
          reason_shown = refl;
          message_shown = refl;
        };
        answered = elim (Reply-cases (k.update_bridge_status t' set.0)) [
          | inl (stored, accepted) ↦ rw accepted (refl, refl, refl)
          | inr (e, denied) ↦ rw denied (refl, refl, refl)
        ];
      }

  injection_failed-Reports :
      (text : String) (x : Failure) (b : DpfHcpBridge)
      → Ends (Reports m) (injection_failed m k text x b)
  unfolding injection_failed ◌>>=◌ pure
  injection_failed-Reports text x b = record {
    at = λ h.
        let s =
          set_injected-Sends condition_false reason_kubeconfig_injection_failed
            (sprintf (text ∷ ": " ∷ error_text x ∷ [])) b h in
        record {
          sent = s.sent;
          reply = k.update_bridge_status s.before s.sent;
          before = s.before;
          last = s.answered.0;
          result = s.answered.1;
          verdict = inr (x, text, s.says, refl);
        };
  }

  injected-Reports : (b : DpfHcpBridge) → Ends (Reports m) (injected m k b)
  unfolding injected finish_with ◌>>=◌ pure
  injected-Reports b = record {
    at = λ h.
        let s = set_injected-Sends condition_true reason_kubeconfig_injected _ b h in
        record {
          sent = s.sent;
          reply = k.update_bridge_status s.before s.sent;
          before = s.before;
          last = s.answered.0;
          result = s.answered.1;
          verdict = inl (_, inl s.says, stops_with _ ∙ s.answered.2);
        };
  }

  pending-Reports :
      (message : String) (b : DpfHcpBridge)
      → Ends (Reports m) (finish_with m k condition_false reason_kubeconfig_pending message b)
  unfolding finish_with ◌>>=◌ pure
  pending-Reports message b = record {
    at = λ h.
        let s = set_injected-Sends condition_false reason_kubeconfig_pending message b h in
        record {
          sent = s.sent;
          reply = k.update_bridge_status s.before s.sent;
          before = s.before;
          last = s.answered.0;
          result = s.answered.1;
          verdict = inl (message, inr s.says, stops_with _ ∙ s.answered.2);
        };
  }

  -- Where the conditions behave as documented, the last call of an injection for a bridge with a
  -- reference sends a status with KubeConfigInjected, and the bridge that the injection returns is the
  -- one that the server stored, or the one that was sent, if the server refused it. The condition is True
  -- with the reason for an injection, or False with the reason for a pending one, and the reconciliation
  -- stops exactly where the server refused the status; or the condition is False with the reason for a
  -- failure, and the error in its message is the one that the injection returns.
  pub inject_kubeconfig-Reports :
      (b : DpfHcpBridge) (ref : ObjectReference) (h : Trace)
      → b.status.hosted_cluster_ref ≡ some ref
      → Reports m (inject_kubeconfig m k b h)
  unfolding inject_kubeconfig inject_available write_secret_step update_reference_step
      complete_injection
  inject_kubeconfig-Reports b ref h referenced =
      let ends : Ends (Reports m) (inject_kubeconfig m k b) = Ends-some _ ref _ _ referenced (
        search (ends_rules, injection_failed-Reports, injected-Reports, pending-Reports) depth
          20) in
      ends.at h
