-- ===== src/Tests/ProgramWitnesses.antt =====
-- The theorems on the start of the program, each applied at concrete flags.
use dpf_hcp_bridge_operator.Base.{none, some, [], ◌≡◌}
use dpf_hcp_bridge_operator.Platform.{ok, err}
use dpf_hcp_bridge_operator.Program.{main, manager_options}
use dpf_hcp_bridge_operator.Program.Options.{
  Flags, CertWatcher, TlsConfig, default_flags, configure,
}
use dpf_hcp_bridge_operator.Program.Launch.{Runtime}
use dpf_hcp_bridge_operator.Program.Plan.{plan}
use dpf_hcp_bridge_operator.Program.Outcome.{Ends, main-Ends}
use dpf_hcp_bridge_operator.Program.Servers.{Serves, manager_options-Serves}
use dpf_hcp_bridge_operator.Tests.Fixtures.{not_found}

-- A certificate for the webhooks is given.
abbrev flags : Flags
flags = record default_flags { webhook_cert_path = "/tmp/k8s/../certs/" }

-- Everything is accepted but the readiness check.
abbrev unready : Runtime
unready = record {
  new_cert_watcher = λ h w. ok tt;
  get_config = λ h. ok tt;
  new_manager = λ h o. ok tt;
  setup_controller = λ h. ok tt;
  add = λ h w. ok tt;
  add_healthz_check = λ h name. ok tt;
  add_readyz_check = λ h name. err not_found;
  start = λ h. ok tt;
}

abbrev certificate_watcher : CertWatcher
certificate_watcher = record { cert = "/tmp/certs/tls.crt"; key = "/tmp/certs/tls.key" }

-- A TLS configuration without an option.
abbrev plain : TlsConfig
plain = record { next_protos = []; certificate = none }

main-Ends_example : Ends (plan flags) [] (main unready flags [])
main-Ends_example = main-Ends unready flags

manager_options-Serves_example :
    let o = manager_options flags (some certificate_watcher) none in
    Serves flags (some certificate_watcher) plain (configure o.webhook_tls_opts plain)
    × Serves flags none plain (configure o.metrics.tls_opts plain)
    × (o.metrics.with_authentication_and_authorization ≡ o.metrics.secure_serving)
manager_options-Serves_example = manager_options-Serves flags (some certificate_watcher) none plain
