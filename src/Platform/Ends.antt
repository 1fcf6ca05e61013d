-- ===== src/Platform/Ends.antt =====
-- What holds of the end of an action, its result and the calls, by one rule for each way to build an
-- action.
use dpf_hcp_bridge_operator.Base.{Bool, true, false, Option, none, some, ◌≡◌, if◌then◌else◌}
use dpf_hcp_bridge_operator.Base.Result.{Result, success, failure, on_result}
use dpf_hcp_bridge_operator.Platform.Replies.{Reply, ok, err, ApiError}
use dpf_hcp_bridge_operator.Platform.Calls.{Trace}
use dpf_hcp_bridge_operator.Platform.Actions.{Action, pure, ◌>>=◌, on_reply, on_option}

-- `P` holds of the end, whatever the client answers.
pub record Ends {B : Type 0} (P : B × Trace → Type 0) (a : Action B) : Type 0 where
  pub at : (h : Trace) → P (a h)

module _ {B : Type 0} {P : B × Trace → Type 0} where
  pub Ends-pure : (b : B) → ((h : Trace) → P (b, h)) → Ends P (pure b)
  unfolding pure
  Ends-pure b p = record { at = p }

  pub Ends-if : (b : Bool) (x y : Action B) → Ends P x → Ends P y → Ends P (if b then x else y)
  Ends-if true x y ex ey = ex
  Ends-if false x y ex ey = ey

module _ {A B : Type 0} {P : B × Trace → Type 0} where
  pub Ends-bind : (n : Action A) (f : A → Action B) → ((a : A) → Ends P (f a)) → Ends P (n >>= f)
  unfolding ◌>>=◌
  Ends-bind n f of = record { at = λ h. (of (n h).0).at (n h).1 }

  pub Ends-reply :
      (r : Reply A) (f : A → Action B) (g : ApiError → Action B)
      → ((a : A) → Ends P (f a))
      → ((x : ApiError) → Ends P (g x))
      → Ends P (on_reply r f g)
  unfolding on_reply
  Ends-reply (ok a) f g of og = of a
  Ends-reply (err x) f g of og = og x

  pub Ends-option :
      (o : Option A) (f : A → Action B) (y : Action B)
      → ((a : A) → Ends P (f a))
      → Ends P y
      → Ends P (on_option o f y)
  unfolding on_option
  Ends-option (some a) f y of oy = of a
  Ends-option none f y of oy = oy

  pub Ends-some :
      (o : Option A) (a : A) (f : A → Action B) (y : Action B)
      → o ≡ some a
      → Ends P (f a)
      → Ends P (on_option o f y)
  unfolding on_option
  Ends-some o a f y e of = rw e of

  pub Ends-result :
      {E : Type 0} (r : Result E A) (f : A → Action B) (g : E → Action B)
      → ((a : A) → Ends P (f a))
      → ((x : E) → Ends P (g x))
      → Ends P (on_result r f g)
  unfolding on_result
  Ends-result (success a) f g of og = of a
  Ends-result (failure x) f g of og = og x

pub ruleset ends_rules = (Ends-if, Ends-bind, Ends-reply, Ends-option, Ends-result)
