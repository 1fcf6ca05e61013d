-- ===== src/Program/Servers.antt =====
-- What the servers of the program end up with.
use dpf_hcp_bridge_operator.Base.{
  String, Option, none, some, List, [], ◌∷◌, ◌≡◌, refl, inl, inr, Bool-cases, if◌then◌else◌,
}
use dpf_hcp_bridge_operator.Program.{tls_opts, with_certificate, manager_options}
use dpf_hcp_bridge_operator.Program.Options.{Flags, CertWatcher, TlsConfig, apply_option, configure}

-- The protocols that the flags ask for.
abbrev pub protocols : Flags → TlsConfig → List String
protocols flags c = if flags.enable_http2 then c.next_protos else "http/1.1" ∷ []

-- The certificate of the watcher, or the one before.
abbrev pub certificate : Option CertWatcher → TlsConfig → Option CertWatcher
certificate none c = c.certificate
certificate (some w) c = some w

abbrev pub Serves : Flags → Option CertWatcher → TlsConfig → TlsConfig → Type 0
Serves flags w before after =
    (after.next_protos ≡ protocols flags before) × (after.certificate ≡ certificate w before)

with_certificate-Serves :
    (flags : Flags) (w : Option CertWatcher) (c : TlsConfig)
    → Serves flags w c (configure (with_certificate (tls_opts flags) w) c)
unfolding with_certificate tls_opts configure apply_option
with_certificate-Serves flags none c = elim (Bool-cases flags.enable_http2) [
  | inl on ↦ rw on (refl, refl)
  | inr off ↦ rw off (refl, refl)
]
with_certificate-Serves flags (some w) c = elim (Bool-cases flags.enable_http2) [
  | inl on ↦ rw on (refl, refl)
  | inr off ↦ rw off (refl, refl)
]

-- The webhook server and the metrics server speak HTTP/1.1 only, unless HTTP/2 is enabled, and each
-- has the certificate of its own watcher, if it has one; the metrics server asks for authentication
-- exactly where it is secure.
pub manager_options-Serves :
    (flags : Flags) (webhook metrics : Option CertWatcher) (c : TlsConfig)
    → let o = manager_options flags webhook metrics in
      Serves flags webhook c (configure o.webhook_tls_opts c)
      × Serves flags metrics c (configure o.metrics.tls_opts c)
      × (o.metrics.with_authentication_and_authorization ≡ o.metrics.secure_serving)
unfolding manager_options
manager_options-Serves flags webhook metrics c =
    (with_certificate-Serves flags webhook c, with_certificate-Serves flags metrics c, refl)
