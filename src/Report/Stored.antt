-- ===== src/Report/Stored.antt =====
-- Reporting to a server that accepts the status.
use dpf_hcp_bridge_operator.Base.{String, ◌≡◌, refl}
use dpf_hcp_bridge_operator.Types.{DpfHcpBridge, ConditionStatus}
use dpf_hcp_bridge_operator.Platform.{
  Client, Meta, Trace, EventType, ok, done, pure, ◌>>=◌, call, on_reply,
}
use dpf_hcp_bridge_operator.Report.{report_with, persist_status}

module _ (m : Meta) (k : Client)
    (stored : (t : Trace) (b : DpfHcpBridge) → k.update_bridge_status t b ≡ ok b) where
  pub report-done :
      (event_type : EventType) (kind : String) (status : ConditionStatus)
      (reason message event_message : String) (cr : DpfHcpBridge) (h : Trace)
      → (report_with m k event_type kind status reason message event_message cr h).0.1 ≡ done
  unfolding report_with persist_status ◌>>=◌ call on_reply pure
  report-done event_type kind status reason message event_message cr h = rw (stored _ _) refl
