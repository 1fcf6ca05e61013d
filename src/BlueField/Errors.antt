-- ===== src/BlueField/Errors.antt =====
-- The errors of internal/controller/bluefield/errors.go and their texts.
use dpf_hcp_bridge_operator.Base.{String, List, [], ◌∷◌}
use dpf_hcp_bridge_operator.Base.Text.{sprintf, join}
use dpf_hcp_bridge_operator.Platform.{ApiError, Failure, api, wrapped, errorf}

pub data ResolveError : Type 0 where
  config_map_not_found : ApiError → ResolveError
  config_map_access_denied : ApiError → ResolveError
  version_not_found : String → List String → ResolveError
  invalid_image_format : String → String → ResolveError
  invalid_bluefield_image_url : String → String → String → ResolveError
  other_error : ApiError → ResolveError

-- The error as a Go `error`: its text is that of the `Error` method.
unfoldable pub resolve_failure : ResolveError → Failure
resolve_failure (config_map_not_found e) =
    wrapped "ConfigMap ocp-bluefield-images not found in namespace dpf-hcp-bridge-system" (api e)
resolve_failure (config_map_access_denied e) =
    wrapped "Operator lacks RBAC permissions to read ConfigMap ocp-bluefield-images" (api e)
resolve_failure (version_not_found version available) = errorf (
    sprintf (
      "BlueField image not found for OCP version "
      ∷ version
      ∷ " (available versions: ["
      ∷ join " " available
      ∷ "])"
      ∷ []))
resolve_failure (invalid_image_format message url) =
    errorf (sprintf ("Invalid ocpReleaseImage format: " ∷ message ∷ " (URL: " ∷ url ∷ ")" ∷ []))
resolve_failure (invalid_bluefield_image_url version url message) = errorf (
    sprintf (
      "BlueField image URL is invalid for OCP version " ∷ version ∷ ": " ∷ message ∷ " (URL: " ∷ url
      ∷ ")" ∷ []))
resolve_failure (other_error e) = api e
