-- ===== src/Program.antt =====
-- `main` of cmd/main.go: the flags, the servers' options, and the start of the manager.
pub mod Launch
pub mod Options
pub mod Plan
pub mod Outcome
pub mod Servers
use dpf_hcp_bridge_operator.Base.{
  String, Bool, true, false, not, Option, none, some, List, [], ◌∷◌, ◌++◌, ◌==◌, if◌then◌else◌,
}
use dpf_hcp_bridge_operator.Program.Options.{
  Flags, CertWatcher, TlsOption, disable_http2, get_certificate, ManagerOptions, file_path,
}
use dpf_hcp_bridge_operator.Program.Launch.{
  Runtime, Start, Exit, finished, or_exit, pure, answered, Step,
}

-- `tlsOpts`
unfoldable pub tls_opts : Flags → List TlsOption
tls_opts flags = if not flags.enable_http2 then disable_http2 ∷ [] else []

-- The options with the certificate of a watcher, if there is one.
unfoldable pub with_certificate : List TlsOption → Option CertWatcher → List TlsOption
with_certificate options none = options
with_certificate options (some w) = options ++ get_certificate w ∷ []

-- The options of `ctrl.NewManager`.
unfoldable pub manager_options : Flags → Option CertWatcher → Option CertWatcher → ManagerOptions
manager_options flags webhook_cert_watcher metrics_cert_watcher = record {
  metrics = record {
    bind_address = flags.metrics_addr;
    secure_serving = flags.secure_metrics;
    with_authentication_and_authorization = flags.secure_metrics;
    tls_opts = with_certificate (tls_opts flags) metrics_cert_watcher;
  };
  webhook_tls_opts = with_certificate (tls_opts flags) webhook_cert_watcher;
  health_probe_bind_address = flags.probe_addr;
  leader_election = flags.enable_leader_election;
  leader_election_id = "4ebdb3db.dpu.hcp.io";
}

module _ (r : Runtime) where
  -- A watcher of the certificate in the directory, if one is given.
  unfoldable pub new_watcher :
      String → String → String → (Option CertWatcher → Start Exit) → Start Exit
  new_watcher path name key rest =
      if not (path == "")
      then (do
        let w : CertWatcher = record { cert = file_path path name; key = file_path path key }
        or_exit (answered (λ h. r.new_cert_watcher h w) (Step.new_cert_watcher w)) (rest (some w)))
      else rest none

  unfoldable pub add_watcher : Option CertWatcher → Start Exit → Start Exit
  add_watcher none rest = rest
  add_watcher (some w) rest = or_exit (answered (λ h. r.add h w) (Step.add w)) rest

  -- The checks of the manager, and its start.
  unfoldable pub start_manager : Start Exit
  start_manager =
      or_exit (answered (λ h. r.add_healthz_check h "healthz") (Step.add_healthz_check "healthz")) (
        or_exit (answered (λ h. r.add_readyz_check h "readyz") (Step.add_readyz_check "readyz"))
          (or_exit (answered (λ h. r.start h) Step.start) (pure finished)))

  unfoldable pub run_manager : Option CertWatcher → Option CertWatcher → Start Exit
  run_manager webhook_cert_watcher metrics_cert_watcher =
      or_exit (answered (λ h. r.setup_controller h) Step.setup_controller)
        (add_watcher metrics_cert_watcher (add_watcher webhook_cert_watcher start_manager))

  unfoldable pub build_manager : Flags → Option CertWatcher → Option CertWatcher → Start Exit
  build_manager flags webhook_cert_watcher metrics_cert_watcher =
      let o = manager_options flags webhook_cert_watcher metrics_cert_watcher in
      or_exit (answered (λ h. r.get_config h) Step.get_config) (
        or_exit (answered (λ h. r.new_manager h o) (Step.new_manager o))
          (run_manager webhook_cert_watcher metrics_cert_watcher))

  unfoldable pub main : Flags → Start Exit
  main flags =
      new_watcher flags.webhook_cert_path flags.webhook_cert_name flags.webhook_cert_key
        (λ webhook_cert_watcher.
          new_watcher flags.metrics_cert_path flags.metrics_cert_name flags.metrics_cert_key
            (λ metrics_cert_watcher. build_manager flags webhook_cert_watcher metrics_cert_watcher))
