-- ===== src/Platform/Actions.antt =====
-- Actions: what the operator does with the outside world, as a function on traces.
use dpf_hcp_bridge_operator.Base.{
  ℕ, String, if◌then◌else◌, Bool, true, false, ◌||◌, Option, none, some, ◌∷◌, [], ltb, is_some,
}
use dpf_hcp_bridge_operator.Base.Text.{sprintf}
use dpf_hcp_bridge_operator.Types.{DpfHcpBridge}
use dpf_hcp_bridge_operator.Platform.Calls.{Call, Trace}
use dpf_hcp_bridge_operator.Platform.Replies.{ApiError, Reply, ok, err}

abbrev pub Action : Type 0 → Type 0
Action A = Trace → A × Trace

unfoldable pub pure : {A : Type 0} → A → Action A
pure a h = (a, h)

infixl 5 ◌>>=◌ ◌>>◌
unfoldable pub ◌>>=◌ : {A B : Type 0} → Action A → (A → Action B) → Action B
◌>>=◌ m f h = let (a, h') = m h in f a h'

abbrev pub ◌>>◌ : {A B : Type 0} → Action A → Action B → Action B
m >> n = m >>= λ _. n

-- One call: it is answered from the trace before it, and added to the trace with its answer.
unfoldable pub call : {A : Type 0} → (Trace → A) → (A → Call) → Action A
call answer entry h = let a = answer h in (a, entry a ∷ h)

module _ {A B : Type 0} where
  -- `if err != nil { … }` after a call
  unfoldable pub on_reply : Reply A → (A → B) → (ApiError → B) → B
  on_reply (ok a) f g = f a
  on_reply (err e) f g = g e

  -- `if x != nil { … }`
  unfoldable pub on_option : Option A → (A → B) → B → B
  on_option (some a) f b = f a
  on_option none f b = b

-- A Go `error`: one of the API passed on as it is, `fmt.Errorf` around another, or a new one.
pub data Failure : Type 0 where
  api : ApiError → Failure
  wrapped : String → Failure → Failure
  errorf : String → Failure

-- `err.Error()`
unfoldable pub error_text : Failure → String
error_text (api e) = e.text
error_text (wrapped text f) = sprintf (text ∷ ": " ∷ error_text f ∷ [])
error_text (errorf text) = text

-- The pair `(ctrl.Result, error)`.
pub record Outcome : Type 0 where
  pub requeue : Bool
  pub requeue_after : ℕ
  pub error : Option Failure

-- `ctrl.Result{}, nil`
abbrev pub done : Outcome
done = record { requeue = false; requeue_after = 0; error = none }

-- `ctrl.Result{}, err`
abbrev pub fail : Failure → Outcome
fail f = record { requeue = false; requeue_after = 0; error = some f }

-- `ctrl.Result{Requeue: true}, err`
abbrev pub fail_requeue : Failure → Outcome
fail_requeue f = record { requeue = true; requeue_after = 0; error = some f }

-- `ctrl.Result{Requeue: true}, nil`
abbrev pub requeue_now : Outcome
requeue_now = record { requeue = true; requeue_after = 0; error = none }

-- `err != nil || result.Requeue || result.RequeueAfter > 0`
abbrev pub stops : Outcome → Bool
stops o = is_some o.error || o.requeue || ltb 0 o.requeue_after

-- A feature works on the bridge in memory, and returns it beside its result.
abbrev pub Feature : Type 0
Feature = DpfHcpBridge → Action (DpfHcpBridge × Outcome)

-- `if result, err := feature(ctx, cr); err != nil || … { return result, err }`, and then the rest.
infixr 4 ◌and_then◌
unfoldable pub ◌and_then◌ : Feature → Feature → Feature
◌and_then◌ f g cr = do (cr', o) ← f cr; if stops o then pure (cr', o) else g cr'
