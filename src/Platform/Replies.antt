-- ===== src/Platform/Replies.antt =====
-- The replies of the API server.
use dpf_hcp_bridge_operator.Base.{String, Bool, ◌≡◌, refl, ◌⊎◌, inl, inr}

-- An error of the API, by what the predicates of apierrors and meta say of it and by its text.
pub record ApiError : Type 0 where
  pub is_not_found : Bool
  pub is_forbidden : Bool
  pub is_conflict : Bool
  pub is_already_exists : Bool
  pub is_no_match : Bool
  pub text : String

pub data Reply (A : Type 0) : Type 0 where
  ok : A → Reply A
  err : ApiError → Reply A

pub Reply-cases :
    {A : Type 0} (r : Reply A) → ((a : A) × (r ≡ ok a)) ⊎ ((e : ApiError) × (r ≡ err e))
Reply-cases (ok a) = inl (a, refl)
Reply-cases (err e) = inr (e, refl)
