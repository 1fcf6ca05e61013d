-- ===== src/Program/Outcome.antt =====
-- How a run of the program ends.
use dpf_hcp_bridge_operator.Base.{List, [], ◌∷◌, ◌++◌, ◌≡◌, refl, ap, ◌⊎◌, inl, inr}
use dpf_hcp_bridge_operator.Platform.{ok, err, ApiError, Reply-cases, on_reply}
use dpf_hcp_bridge_operator.Program.{main}
use dpf_hcp_bridge_operator.Program.Options.{Flags}
use dpf_hcp_bridge_operator.Program.Launch.{Runtime, Steps, Exit, exit_1, finished}
use dpf_hcp_bridge_operator.Program.Plan.{Task, entry, answer, execute, plan, main-plan}

-- The steps of the tasks, all of them accepted.
abbrev pub accepted : List Task → Steps → Steps
accepted [] h = h
accepted (t ∷ ts) h = accepted ts (entry t (ok tt) ∷ h)

-- The first task of the list that fails, after those that do not.
pub record FirstFailure (ts : List Task) (h : Steps) (r : Exit × Steps) : Type 0 where
  pub done : List Task
  pub failing : Task
  pub left : List Task
  pub error : ApiError
  pub split : ts ≡ done ++ failing ∷ left
  pub result : r ≡ (exit_1, entry failing (err error) ∷ accepted done h)

abbrev pub Ends : List Task → Steps → Exit × Steps → Type 0
Ends ts h r = (r ≡ (finished, accepted ts h)) ⊎ FirstFailure ts h r

execute-Ends : (r : Runtime) (ts : List Task) (h : Steps) → Ends ts h (execute r ts h)
unfolding execute on_reply
execute-Ends r [] h = inl refl
execute-Ends r (t ∷ ts) h = elim (Reply-cases (answer r t h)) [
  | inr (e, failed) ↦
      rw failed
        (inr (record { done = []; failing = t; left = ts; error = e; split = refl; result = refl }))
  | inl (u, went) ↦ rw went (elim (execute-Ends r ts (entry t (ok tt) ∷ h)) [
    | inl complete ↦ inl complete
    | inr f ↦ inr (record {
      done = t ∷ f.done;
      failing = f.failing;
      left = f.left;
      error = f.error;
      split = ap (λ xs. t ∷ xs) f.split;
      result = f.result;
    })
  ])
]

-- The program ends in one of two ways: each step of its plan was accepted, and it returns; or it
-- exits with code 1 after the first step that failed, and takes no step of the plan after it.
pub main-Ends : (r : Runtime) (flags : Flags) → Ends (plan flags) [] (main r flags [])
main-Ends r flags = rw (main-plan r flags []) (execute-Ends r (plan flags) [])
