-- ===== src/Finalizer.antt =====
-- The finalizer manager, internal/controller/finalizer.
pub mod Laws
use dpf_hcp_bridge_operator.Base.{String, Option, List, [], ◌∷◌, ◌++◌}
use dpf_hcp_bridge_operator.Base.Text.{sprintf}
use dpf_hcp_bridge_operator.Types.{DpfHcpBridge}
use dpf_hcp_bridge_operator.Platform.{
  Action, Outcome, Failure, error_text, pure, ◌>>=◌, ◌>>◌, on_option, done, fail, event, normal,
  warning,
}

-- The interface `CleanupHandler`. A handler returns no error if its cleanup is complete.
pub record CleanupHandler : Type 0 where
  pub name : String
  pub cleanup : DpfHcpBridge → Action (Option Failure)

-- `RegisterHandler`
unfoldable pub register_handler : List CleanupHandler → CleanupHandler → List CleanupHandler
register_handler handlers handler = handlers ++ handler ∷ []

-- `HandleFinalizerCleanup`. The handlers do not change the bridge in memory.
unfoldable pub handle_finalizer_cleanup : List CleanupHandler → DpfHcpBridge → Action Outcome
handle_finalizer_cleanup [] cr = do
  event normal "CleanupSucceeded" "All resources cleaned up successfully"
  pure done
handle_finalizer_cleanup (handler ∷ rest) cr = do
  failed ← handler.cleanup cr
  on_option failed
      (λ x. do
        event warning "CleanupHandlerFailed"
            (sprintf ("Cleanup handler '" ∷ handler.name ∷ "' failed: " ∷ error_text x ∷ []))
        pure (fail x))
      (handle_finalizer_cleanup rest cr)
