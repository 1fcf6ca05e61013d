-- ===== src/Program/Launch.antt =====
-- The steps of cmd/main.go that leave the program, and their order.
use dpf_hcp_bridge_operator.Base.{String, List, ◌∷◌}
use dpf_hcp_bridge_operator.Platform.{Reply, on_reply}
use dpf_hcp_bridge_operator.Program.Options.{CertWatcher, ManagerOptions}

-- A call of controller-runtime with its answer.
pub data Step : Type 0 where
  new_cert_watcher : CertWatcher → Reply (Unit {0}) → Step
  get_config : Reply (Unit {0}) → Step
  new_manager : ManagerOptions → Reply (Unit {0}) → Step
  setup_controller : Reply (Unit {0}) → Step
  add : CertWatcher → Reply (Unit {0}) → Step
  add_healthz_check : String → Reply (Unit {0}) → Step
  add_readyz_check : String → Reply (Unit {0}) → Step
  start : Reply (Unit {0}) → Step

-- The steps so far, newest first.
abbrev pub Steps : Type 0
Steps = List Step

-- controller-runtime, by its answers.
pub record Runtime : Type 0 where
  pub new_cert_watcher : Steps → CertWatcher → Reply (Unit {0})
  pub get_config : Steps → Reply (Unit {0})
  pub new_manager : Steps → ManagerOptions → Reply (Unit {0})
  pub setup_controller : Steps → Reply (Unit {0})
  pub add : Steps → CertWatcher → Reply (Unit {0})
  pub add_healthz_check : Steps → String → Reply (Unit {0})
  pub add_readyz_check : Steps → String → Reply (Unit {0})
  pub start : Steps → Reply (Unit {0})

-- The end of the program: `os.Exit(1)`, or the end of `main`.
pub data Exit : Type 0 where
  exit_1 finished : Exit

abbrev pub Start : Type 0 → Type 0
Start A = Steps → A × Steps

unfoldable pub pure : {A : Type 0} → A → Start A
pure a h = (a, h)

unfoldable pub answered :
    (Steps → Reply (Unit {0})) → (Reply (Unit {0}) → Step) → Start (Reply (Unit {0}))
answered answer entry h = let a = answer h in (a, entry a ∷ h)

-- `if err := …; err != nil { os.Exit(1) }`, and then the rest.
unfoldable pub or_exit : Start (Reply (Unit {0})) → Start Exit → Start Exit
or_exit n rest h = let (reply, h') = n h in on_reply reply (λ u. rest h') (λ e. (exit_1, h'))
