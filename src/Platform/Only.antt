-- ===== src/Platform/Only.antt =====
-- Which calls an action can make, by one rule for each way to build an action.
use dpf_hcp_bridge_operator.Base.{
  Bool, true, false, Option, none, some, [], ◌∷◌, ◌≡◌, ◌⊎◌, inl, inr, if◌then◌else◌,
}
use dpf_hcp_bridge_operator.Base.Result.{Result, success, failure, on_result}
use dpf_hcp_bridge_operator.Types.{DpfHcpBridge}
use dpf_hcp_bridge_operator.Platform.Replies.{ApiError, Reply, ok, err}
use dpf_hcp_bridge_operator.Platform.Calls.{Call, Trace}
use dpf_hcp_bridge_operator.Platform.Actions.{
  Action, pure, ◌>>=◌, call, on_reply, on_option, Feature, ◌and_then◌, stops,
}

-- The second trace is the first one with more calls, all of them allowed.
pub data Grows (allowed : Call → Bool) (h : Trace) : Trace → Type 0 where
  same : Grows allowed h h
  more : {t : Trace} (c : Call) → allowed c ≡ true → Grows allowed h t → Grows allowed h (c ∷ t)

pub Grows-trans :
    {allowed : Call → Bool} {h t u : Trace}
    → Grows allowed h t
    → Grows allowed t u
    → Grows allowed h u
Grows-trans g same = g
Grows-trans g (more c a r) = more c a (Grows-trans g r)

-- What each allowed call keeps, the whole growth keeps.
pub Grows-keeps :
    {allowed : Call → Bool} (P : Trace → Type 0) {h t : Trace}
    → ((c : Call) (u : Trace) → allowed c ≡ true → P u → P (c ∷ u))
    → Grows allowed h t
    → P h
    → P t
Grows-keeps P step same p = p
Grows-keeps P step (more c a g) p = step c _ a (Grows-keeps P step g p)

pub Grows-weaken :
    {allowed wider : Call → Bool} {h t : Trace}
    → ((c : Call) → allowed c ≡ true → wider c ≡ true)
    → Grows allowed h t
    → Grows wider h t
Grows-weaken w same = same
Grows-weaken w (more c a g) = more c (w c a) (Grows-weaken w g)

-- The action makes allowed calls only, whatever the client answers.
pub record Only (allowed : Call → Bool) {A : Type 0} (m : Action A) : Type 0 where
  pub at : (h : Trace) → Grows allowed h (m h).1

module _ {allowed : Call → Bool} {A : Type 0} where
  pub Only-pure : (a : A) → Only allowed (pure a)
  unfolding pure
  Only-pure a = record { at = λ h. same }

  pub Only-call :
      (answer : Trace → A) (entry : A → Call)
      → ((a : A) → allowed (entry a) ≡ true)
      → Only allowed (call answer entry)
  unfolding call
  Only-call answer entry all = record { at = λ h. more (entry (answer h)) (all (answer h)) same }

  pub Only-if :
      (b : Bool) (m n : Action A)
      → Only allowed m
      → Only allowed n
      → Only allowed (if b then m else n)
  Only-if true m n om on = om
  Only-if false m n om on = on

module _ {allowed : Call → Bool} {A B : Type 0} where
  pub Only-bind :
      (m : Action A) (f : A → Action B)
      → Only allowed m
      → ((a : A) → Only allowed (f a))
      → Only allowed (m >>= f)
  unfolding ◌>>=◌
  Only-bind m f om of = record {
    at = λ h. let (a, h') = m h in Grows-trans (om.at h) ((of a).at h');
  }

  pub Only-reply :
      (r : Reply A) (f : A → Action B) (g : ApiError → Action B)
      → ((a : A) → Only allowed (f a))
      → ((e : ApiError) → Only allowed (g e))
      → Only allowed (on_reply r f g)
  unfolding on_reply
  Only-reply (ok a) f g of og = of a
  Only-reply (err e) f g of og = og e

  pub Only-option :
      (o : Option A) (f : A → Action B) (m : Action B)
      → ((a : A) → Only allowed (f a))
      → Only allowed m
      → Only allowed (on_option o f m)
  unfolding on_option
  Only-option (some a) f m of om = of a
  Only-option none f m of om = om

pub Only-then :
    {allowed : Call → Bool} (f g : Feature) (cr : DpfHcpBridge)
    → Only allowed (f cr)
    → ((b : DpfHcpBridge) → Only allowed (g b))
    → Only allowed ((f and_then g) cr)
unfolding ◌and_then◌
Only-then f g cr of og =
    Only-bind (f cr) _ of (λ r. Only-if (stops r.1) (pure r) (g r.0) (Only-pure r) (og r.0))

pub Only-result :
    {E A B : Type 0} {allowed : Call → Bool} (r : Result E A) (f : A → Action B) (g : E → Action B)
    → ((a : A) → Only allowed (f a))
    → ((x : E) → Only allowed (g x))
    → Only allowed (on_result r f g)
unfolding on_result
Only-result (success a) f g of og = of a
Only-result (failure x) f g of og = og x

abbrev pub anything : Call → Bool
anything c = true

-- The call was made, with this answer.
abbrev pub Logged : Call → Trace → Type 0
Logged c [] = ⊥
Logged c (x ∷ t) = (x ≡ c) ⊎ Logged c t

pub Grows-Logged :
    {allowed : Call → Bool} {h t : Trace} (c : Call) → Grows allowed h t → Logged c h → Logged c t
Grows-Logged c g l = Grows-keeps (Logged c) (λ x u a p. inr p) g l

pub Only-Logged :
    {allowed : Call → Bool} {A : Type 0} {m : Action A} (c : Call) (h : Trace)
    → Only allowed m
    → Logged c h
    → Logged c (m h).1
Only-Logged c h o l = Grows-Logged c (o.at h) l

-- The second trace has every call of the first.
pub record Keeps (t u : Trace) : Type 0 where
  pub call : (c : Call) → Logged c t → Logged c u

pub Only-Keeps :
    {allowed : Call → Bool} {A : Type 0} {m : Action A} (h : Trace)
    → Only allowed m
    → Keeps h (m h).1
Only-Keeps h o = record { call = λ c l. Only-Logged c h o l }

pub Grows-Keeps : {allowed : Call → Bool} {h t : Trace} → Grows allowed h t → Keeps h t
Grows-Keeps g = record { call = λ c l. Grows-Logged c g l }

pub Keeps-refl : {t : Trace} → Keeps t t
Keeps-refl = record { call = λ c l. l }

pub Keeps-trans : {t u v : Trace} → Keeps t u → Keeps u v → Keeps t v
Keeps-trans a b = record { call = λ c l. b.call c (a.call c l) }

pub Only-weaken :
    {allowed wider : Call → Bool} {A : Type 0} {m : Action A}
    → ((c : Call) → allowed c ≡ true → wider c ≡ true)
    → Only allowed m
    → Only wider m
Only-weaken w o = record { at = λ h. Grows-weaken w (o.at h) }

-- A call of the kind was made.
abbrev pub Made : (Call → Bool) → Trace → Type 0
Made kind t = (c : Call) × (kind c ≡ true) × Logged c t

Made-step :
    {kind allowed : Call → Bool}
    → ((c : Call) → allowed c ≡ true → kind c ≡ false)
    → (h : Trace) (c : Call) (u : Trace) → allowed c ≡ true
    → (Made kind u → Made kind h)
    → Made kind (c ∷ u)
    → Made kind h
Made-step disjoint h c u a earlier (x, is_kind, inl at_once) =
    absurd (cc (is_kind, disjoint c a, at_once))
Made-step disjoint h c u a earlier (x, is_kind, inr before) = earlier (x, is_kind, before)

-- A call of another kind behind it does not count.
pub Made-earlier :
    {kind : Call → Bool} (c : Call) (h : Trace) → kind c ≡ false → Made kind (c ∷ h) → Made kind h
Made-earlier c h other (x, is_kind, inl at_once) = absurd (cc (is_kind, other, at_once))
Made-earlier c h other (x, is_kind, inr before) = (x, is_kind, before)

pub Grows-Made :
    {kind allowed : Call → Bool} {h t : Trace}
    → ((c : Call) → allowed c ≡ true → kind c ≡ false)
    → Grows allowed h t
    → Made kind t
    → Made kind h
Grows-Made {kind} {h = h} disjoint g =
    Grows-keeps (λ t. Made kind t → Made kind h) (Made-step disjoint h) g (λ p. p)

-- An action whose calls are of other kinds makes no call of this kind.
pub Only-Made :
    {kind allowed : Call → Bool} {A : Type 0} {n : Action A}
    → ((c : Call) → allowed c ≡ true → kind c ≡ false)
    → (h : Trace) → Only allowed n
    → Made kind (n h).1
    → Made kind h
Only-Made disjoint h o = Grows-Made disjoint (o.at h)

pub ruleset only_rules =
    (Only-pure, Only-call, Only-if, Only-bind, Only-reply, Only-option, Only-then)
