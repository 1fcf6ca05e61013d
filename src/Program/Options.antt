-- ===== src/Program/Options.antt =====
-- The flags of cmd/main.go and the options that it makes of them.
use dpf_hcp_bridge_operator.Base.{
  String, Bool, true, false, Option, some, List, [], ◌∷◌, ◌==◌, if◌then◌else◌,
}
use dpf_hcp_bridge_operator.Base.Text.{append, split, join}

-- The variables that the flags are bound to.
pub record Flags : Type 0 where
  pub metrics_addr : String
  pub probe_addr : String
  pub enable_leader_election : Bool
  pub secure_metrics : Bool
  pub webhook_cert_path : String
  pub webhook_cert_name : String
  pub webhook_cert_key : String
  pub metrics_cert_path : String
  pub metrics_cert_name : String
  pub metrics_cert_key : String
  pub enable_http2 : Bool

-- The values without arguments.
abbrev pub default_flags : Flags
default_flags = record {
  metrics_addr = "0";
  probe_addr = ":8081";
  enable_leader_election = false;
  secure_metrics = true;
  webhook_cert_path = "";
  webhook_cert_name = "tls.crt";
  webhook_cert_key = "tls.key";
  metrics_cert_path = "";
  metrics_cert_name = "tls.crt";
  metrics_cert_key = "tls.key";
  enable_http2 = false;
}

-- A `certwatcher.CertWatcher`, by the files that it watches.
pub record CertWatcher : Type 0 where
  pub cert : String
  pub key : String

-- The part of `tls.Config` that the options write.
pub record TlsConfig : Type 0 where
  pub next_protos : List String
  pub certificate : Option CertWatcher

pub data TlsOption : Type 0 where
  disable_http2 : TlsOption
  get_certificate : CertWatcher → TlsOption

-- `func(config *tls.Config)`
unfoldable pub apply_option : TlsOption → TlsConfig → TlsConfig
apply_option disable_http2 c = record c { next_protos = "http/1.1" ∷ [] }
apply_option (get_certificate w) c = record c { certificate = some w }

-- A server applies its options in order.
unfoldable pub configure : List TlsOption → TlsConfig → TlsConfig
configure [] c = c
configure (o ∷ rest) c = configure rest (apply_option o c)

pub record MetricsOptions : Type 0 where
  pub bind_address : String
  pub secure_serving : Bool
  -- The `FilterProvider`.
  pub with_authentication_and_authorization : Bool
  pub tls_opts : List TlsOption

pub record ManagerOptions : Type 0 where
  pub metrics : MetricsOptions
  pub webhook_tls_opts : List TlsOption
  pub health_probe_bind_address : String
  pub leader_election : Bool
  pub leader_election_id : String

-- One element of a path against the ones before it, the last one first (`filepath.Clean`).
unfoldable pub clean_step : Bool → List String → String → List String
clean_step rooted [] part =
    if part == ""
    then []
    else if part == "."
    then []
    else if part == ".."
    then (if rooted then [] else ".." ∷ [])
    else part ∷ []
clean_step rooted (last ∷ before) part =
    if part == ""
    then last ∷ before
    else if part == "."
    then last ∷ before
    else if part == ".."
    then (if last == ".." then ".." ∷ last ∷ before else before)
    else part ∷ last ∷ before

unfoldable pub clean_parts : Bool → List String → List String → List String
clean_parts rooted stack [] = stack
clean_parts rooted stack (part ∷ rest) = clean_parts rooted (clean_step rooted stack part) rest

unfoldable pub reverse_onto : List String → List String → List String
reverse_onto [] acc = acc
reverse_onto (x ∷ xs) acc = reverse_onto xs (x ∷ acc)

-- A rooted path begins with an empty element.
unfoldable pub is_rooted : List String → Bool
is_rooted [] = false
is_rooted (first ∷ rest) = first == ""

-- `filepath.Clean`, of a path that is not empty.
unfoldable pub clean : String → String
clean path =
    let parts = split 47 path in
    let rooted = is_rooted parts in
    let text = join "/" (reverse_onto (clean_parts rooted [] parts) []) in
    if rooted then append "/" text else if text == "" then "." else text

-- `filepath.Join(path, name)`, of a path that is not empty.
unfoldable pub file_path : String → String → String
file_path path name = if name == "" then clean path else clean (append path (append "/" name))
