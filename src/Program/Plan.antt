-- ===== src/Program/Plan.antt =====
-- The start of the program against a plan: a list of steps, run until one fails.
use dpf_hcp_bridge_operator.Base.{
  String, Option, none, some, List, [], ◌∷◌, ◌==◌, ◌≡◌, refl, ap, inl, inr, Bool-cases,
  if◌then◌else◌,
}
use dpf_hcp_bridge_operator.Platform.{Reply, on_reply}
use dpf_hcp_bridge_operator.Program.{
  manager_options, new_watcher, add_watcher, start_manager, run_manager, build_manager, main,
}
use dpf_hcp_bridge_operator.Program.Options.{Flags, CertWatcher, ManagerOptions, file_path}
use dpf_hcp_bridge_operator.Program.Launch.{
  Runtime, Start, Steps, Exit, exit_1, finished, or_exit, pure, answered, Step,
}

-- A step that is still to be answered.
pub data Task : Type 0 where
  new_cert_watcher : CertWatcher → Task
  get_config : Task
  new_manager : ManagerOptions → Task
  setup_controller : Task
  add : CertWatcher → Task
  add_healthz_check : Task
  add_readyz_check : Task
  start : Task

abbrev pub entry : Task → Reply (Unit {0}) → Step
entry (Task.new_cert_watcher w) a = Step.new_cert_watcher w a
entry Task.get_config a = Step.get_config a
entry (Task.new_manager o) a = Step.new_manager o a
entry Task.setup_controller a = Step.setup_controller a
entry (Task.add w) a = Step.add w a
entry Task.add_healthz_check a = Step.add_healthz_check "healthz" a
entry Task.add_readyz_check a = Step.add_readyz_check "readyz" a
entry Task.start a = Step.start a

abbrev pub answer : Runtime → Task → Steps → Reply (Unit {0})
answer r (Task.new_cert_watcher w) h = r.new_cert_watcher h w
answer r Task.get_config h = r.get_config h
answer r (Task.new_manager o) h = r.new_manager h o
answer r Task.setup_controller h = r.setup_controller h
answer r (Task.add w) h = r.add h w
answer r Task.add_healthz_check h = r.add_healthz_check h "healthz"
answer r Task.add_readyz_check h = r.add_readyz_check h "readyz"
answer r Task.start h = r.start h

-- The steps in order, up to the first that fails.
unfoldable pub execute : Runtime → List Task → Start Exit
execute r [] h = (finished, h)
execute r (t ∷ ts) h =
    let a = answer r t h in
    on_reply a (λ u. execute r ts (entry t a ∷ h)) (λ e. (exit_1, entry t a ∷ h))

-- The watcher of a certificate whose directory is given.
abbrev pub watcher : String → String → String → Option CertWatcher
watcher path name key =
    if path == ""
    then none
    else some (record { cert = file_path path name; key = file_path path key })

abbrev pub webhook_watcher : Flags → Option CertWatcher
webhook_watcher flags =
    watcher flags.webhook_cert_path flags.webhook_cert_name flags.webhook_cert_key

abbrev pub metrics_watcher : Flags → Option CertWatcher
metrics_watcher flags =
    watcher flags.metrics_cert_path flags.metrics_cert_name flags.metrics_cert_key

abbrev pub for_watcher : Option CertWatcher → (CertWatcher → Task) → List Task → List Task
for_watcher none task rest = rest
for_watcher (some w) task rest = task w ∷ rest

-- The checks, and the start last.
abbrev checks : List Task
checks = Task.add_healthz_check ∷ Task.add_readyz_check ∷ Task.start ∷ []

abbrev added : Option CertWatcher → Option CertWatcher → List Task
added webhook metrics = for_watcher metrics Task.add (for_watcher webhook Task.add checks)

abbrev manager_tasks : Flags → Option CertWatcher → Option CertWatcher → List Task
manager_tasks flags webhook metrics =
    Task.get_config
    ∷ Task.new_manager (manager_options flags webhook metrics)
    ∷ Task.setup_controller
    ∷ added webhook metrics

abbrev pub plan : Flags → List Task
plan flags =
    let webhook = webhook_watcher flags in
    let metrics = metrics_watcher flags in
    for_watcher webhook Task.new_cert_watcher
      (for_watcher metrics Task.new_cert_watcher (manager_tasks flags webhook metrics))

-- The program from some point on does these steps.
abbrev Does : Runtime → Start Exit → List Task → Type 0
Does r n ts = (h : Steps) → n h ≡ execute r ts h

module _ (r : Runtime) where
  task-Does :
      (t : Task) (rest : Start Exit) (ts : List Task)
      → Does r rest ts
      → Does r (or_exit (answered (answer r t) (entry t)) rest) (t ∷ ts)
  unfolding or_exit answered execute
  task-Does t rest ts same h =
      let a = answer r t h in
      ap (λ f. on_reply a f (λ e. (exit_1, entry t a ∷ h))) (λ i u. same (entry t a ∷ h) i)

  start_manager-Does : Does r (start_manager r) checks
  unfolding start_manager pure execute
  start_manager-Does =
      task-Does Task.add_healthz_check _ (Task.add_readyz_check ∷ Task.start ∷ []) (
        task-Does Task.add_readyz_check _ (Task.start ∷ [])
          (task-Does Task.start (pure finished) [] (λ h. refl)))

  add_watcher-Does :
      (w : Option CertWatcher) (rest : Start Exit) (ts : List Task)
      → Does r rest ts
      → Does r (add_watcher r w rest) (for_watcher w Task.add ts)
  unfolding add_watcher
  add_watcher-Does none rest ts same = same
  add_watcher-Does (some w) rest ts same = task-Does (Task.add w) rest ts same

  build_manager-Does :
      (flags : Flags) (webhook metrics : Option CertWatcher)
      → Does r (build_manager r flags webhook metrics) (manager_tasks flags webhook metrics)
  unfolding build_manager run_manager
  build_manager-Does flags webhook metrics = task-Does Task.get_config _ _ (
      task-Does (Task.new_manager (manager_options flags webhook metrics)) _ _ (
        task-Does Task.setup_controller _ _
          (add_watcher-Does metrics _ _ (add_watcher-Does webhook _ _ start_manager-Does))))

  new_watcher-Does :
      (path name key : String) (rest : Option CertWatcher → Start Exit) (ts : List Task)
      → Does r (rest (watcher path name key)) ts
      → Does r
          (new_watcher r path name key rest)
          (for_watcher (watcher path name key) Task.new_cert_watcher ts)
  unfolding new_watcher
  new_watcher-Does path name key rest ts same = elim (Bool-cases (path == "")) [
    | inl empty ↦ rw empty (rw empty at same)
    | inr given ↦ rw given (
        task-Does
          (Task.new_cert_watcher (record { cert = file_path path name; key = file_path path key }))
          _ ts (rw given at same))
  ]

  -- The program runs its plan: the watchers of the certificates that are given are made first, then
  -- the manager with the options of the flags, the controller, the watchers' registration, the
  -- checks, and the start of the manager last.
  pub main-plan : (flags : Flags) (h : Steps) → main r flags h ≡ execute r (plan flags) h
  unfolding main
  main-plan flags =
      new_watcher-Does flags.webhook_cert_path flags.webhook_cert_name flags.webhook_cert_key _ _ (
        new_watcher-Does flags.metrics_cert_path flags.metrics_cert_name flags.metrics_cert_key _ _
          (build_manager-Does flags (webhook_watcher flags) (metrics_watcher flags)))
