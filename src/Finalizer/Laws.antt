-- ===== src/Finalizer/Laws.antt =====
-- The order in which the finalizer manager runs its handlers.
use dpf_hcp_bridge_operator.Base.{
  String, Bool, true, false, none, List, [], ◌∷◌, ◌≡◌, refl, ◌↔◌, inl, inr, Option-cases, All,
}
use dpf_hcp_bridge_operator.Types.{DpfHcpBridge}
use dpf_hcp_bridge_operator.Platform.{Call, Trace, stops, pure, ◌>>=◌, call, on_option, normal}
use dpf_hcp_bridge_operator.Platform.Only.{Only, only_rules, Only-bind, Only-pure, Only-option}
use dpf_hcp_bridge_operator.Finalizer.{CleanupHandler, handle_finalizer_cleanup}

-- Each handler, run after those before it, reports no error.
abbrev pub AllClean : List CleanupHandler → DpfHcpBridge → Trace → Type 0
AllClean [] cr h = Unit {0}
AllClean (handler ∷ rest) cr h =
    ((handler.cleanup cr h).0 ≡ none) × AllClean rest cr (handler.cleanup cr h).1

-- The manager goes on exactly when every registered handler, run in the order of registration after
-- those before it, reports no error; a handler after a failure does not run.
pub handle_finalizer_cleanup_exact :
    (handlers : List CleanupHandler) (cr : DpfHcpBridge) (h : Trace)
    → (stops (handle_finalizer_cleanup handlers cr h).0 ≡ false) ↔ AllClean handlers cr h
unfolding handle_finalizer_cleanup ◌>>=◌ call pure on_option
handle_finalizer_cleanup_exact [] cr h = (λ e. tt, λ a. refl)
handle_finalizer_cleanup_exact (handler ∷ rest) cr h =
    elim (Option-cases (handler.cleanup cr h).0) [
      | inl clean ↦ rw clean (
          let ih = handle_finalizer_cleanup_exact rest cr (handler.cleanup cr h).1 in
          (λ e. (refl, ih.0 e), λ a. ih.1 a.1))
      | inr (x, failed) ↦ rw failed (λ e. cc e, λ a. cc a.0)
    ]

-- The trace behind the handlers, where none of them fails.
abbrev pub cleaned : List CleanupHandler → DpfHcpBridge → Trace → Trace
cleaned [] cr h = h
cleaned (handler ∷ rest) cr h = cleaned rest cr (handler.cleanup cr h).1

pub handle_finalizer_cleanup-trace :
    (handlers : List CleanupHandler) (cr : DpfHcpBridge) (h : Trace)
    → AllClean handlers cr h
    → (handle_finalizer_cleanup handlers cr h).1 ≡ (
        Call.event normal "CleanupSucceeded" "All resources cleaned up successfully"
        ∷ cleaned handlers cr h)
unfolding handle_finalizer_cleanup ◌>>=◌ call pure on_option
handle_finalizer_cleanup-trace [] cr h all = refl
handle_finalizer_cleanup-trace (handler ∷ rest) cr h (clean, all) =
    rw clean (handle_finalizer_cleanup-trace rest cr _ all)

-- What the handlers and the events can do is what the manager does.
pub handle_finalizer_cleanup-Only :
    {allowed : Call → Bool}
    → ((t : _) (r s : String) → allowed (Call.event t r s) ≡ true)
    → (handlers : List CleanupHandler) (cr : DpfHcpBridge)
    → All (λ x. (b : DpfHcpBridge) → Only allowed (x.cleanup b)) handlers
    → Only allowed (handle_finalizer_cleanup handlers cr)
unfolding handle_finalizer_cleanup
handle_finalizer_cleanup-Only ev [] cr all =
    Only-bind _ _ (search (only_rules, ev)) (λ u. Only-pure _)
handle_finalizer_cleanup-Only ev (x ∷ rest) cr all = Only-bind _ _ (all.0 cr) (λ failed.
    Only-option failed _ _ (λ e. search (only_rules, ev))
      (handle_finalizer_cleanup-Only ev rest cr all.1))
