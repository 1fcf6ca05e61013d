-- ===== src/BlueField.antt =====
-- The BlueField image resolver, internal/controller/bluefield.
pub mod Accepted
pub mod Version
pub mod Errors
pub mod Resolved
pub mod Again
pub mod Verdict
pub mod Tag
pub mod Complete
use dpf_hcp_bridge_operator.Base.{
  String, Bool, true, false, Option, none, some, List, [], ◌∷◌, Assoc, lookup, map, ◌==◌,
  if◌then◌else◌,
}
use dpf_hcp_bridge_operator.Base.Text.{sprintf, contains}
use dpf_hcp_bridge_operator.Base.Result.{Result, success, failure, on_result}
use dpf_hcp_bridge_operator.Types.{
  DpfHcpBridge, ConfigMap, NamespacedName, condition_true, condition_false,
  bluefield_image_resolved,
}
use dpf_hcp_bridge_operator.Platform.{
  Client, Meta, Action, Feature, Reply, ApiError, pure, ◌>>=◌, on_reply, on_option, normal, warning,
  done, fail, get_config_map, error_text, api,
}
use dpf_hcp_bridge_operator.Report.{report, report_with, with_outcome}
use dpf_hcp_bridge_operator.BlueField.Version.{extract_ocp_version}
use dpf_hcp_bridge_operator.BlueField.Errors.{
  ResolveError, config_map_not_found, config_map_access_denied, other_error, version_not_found,
  invalid_image_format, invalid_bluefield_image_url, resolve_failure,
}

abbrev pub config_map_name : String
config_map_name = "ocp-bluefield-images"

abbrev pub config_map_namespace : String
config_map_namespace = "dpf-hcp-bridge-system"

-- `cr.Status.BlueFieldContainerImage = image`
abbrev pub with_image : DpfHcpBridge → String → DpfHcpBridge
with_image cr image = record cr { status = record cr.status { bluefield_container_image = image } }

abbrev pub keys {ℓ} : {V : Type ℓ} → Assoc V → List String
keys m = map (λ e. e.0) m

-- The available versions are the keys in the order of the entries; Go's order is arbitrary.
unfoldable pub lookup_bluefield_image : ConfigMap → String → Result ResolveError String
lookup_bluefield_image config_map version =
    on_option (lookup version config_map.content) success
      (failure (version_not_found version (keys config_map.content)))

unfoldable pub validate_bluefield_image_url : String → String → Option ResolveError
validate_bluefield_image_url url version =
    if url == ""
    then some (invalid_bluefield_image_url version url "BlueField image URL is empty")
    else if contains url ":"
    then none
    else some (
        invalid_bluefield_image_url version url
          "BlueField image URL is malformed (missing tag separator ':')")

-- The `switch` of `handlePermanentError`.
unfoldable pub permanent_reason : ResolveError → String
permanent_reason (version_not_found v vs) = "VersionNotFound"
permanent_reason (config_map_access_denied e) = "ConfigMapAccessDenied"
permanent_reason (invalid_bluefield_image_url v u t) = "InvalidBlueFieldImageURL"
permanent_reason _ = "VersionNotFound"

-- The `switch` of `handleTransientError`: the reason and the message.
unfoldable pub transient_reason : ResolveError → String × String
transient_reason (config_map_not_found e) = (
  "ConfigMapNotFound",
  sprintf ("ConfigMap " ∷ config_map_name ∷ " not found in namespace " ∷ config_map_namespace ∷ []),
)
transient_reason e = (
  "ConfigMapTransientError",
  sprintf ("Transient error accessing ConfigMap: " ∷ error_text (resolve_failure e) ∷ []),
)

module _ (m : Meta) (k : Client) where
  unfoldable pub update_status_on_success : String → String → Feature
  update_status_on_success image version cr =
      report_with m k normal bluefield_image_resolved condition_true "ImageResolved"
        (sprintf ("BlueField container image resolved: " ∷ image ∷ []))
        (sprintf
          ("BlueField container image resolved for OCP version " ∷ version ∷ ": " ∷ image ∷ []))
        (with_image cr image)

  -- Both cases of its `switch` have one reason.
  unfoldable pub handle_validation_error : ResolveError → Feature
  handle_validation_error e cr = with_outcome done (
      report m k warning bluefield_image_resolved condition_false "InvalidImageFormat"
        (error_text (resolve_failure e)) (with_image cr ""))

  unfoldable pub handle_permanent_error : ResolveError → Feature
  handle_permanent_error e cr = with_outcome done (
      report m k warning bluefield_image_resolved condition_false (permanent_reason e)
        (error_text (resolve_failure e)) (with_image cr ""))

  unfoldable pub handle_transient_error : ResolveError → Feature
  handle_transient_error e cr = with_outcome (fail (resolve_failure e)) (
      report m k warning bluefield_image_resolved condition_false (transient_reason e).0
        (transient_reason e).1 cr)

  unfoldable pub fetch_config_map : Action (Result ResolveError ConfigMap)
  fetch_config_map = do
    reply ← get_config_map k (record { namespace = config_map_namespace; name = config_map_name })
    pure (
        on_reply reply success (λ e. failure (
          if e.is_not_found
          then config_map_not_found e
          else if e.is_forbidden
          then config_map_access_denied e
          else other_error e)))

  -- The answer to the three kinds of errors of `fetchConfigMap`.
  unfoldable pub handle_fetch_error : ResolveError → Feature
  handle_fetch_error (config_map_not_found e) cr =
      handle_transient_error (config_map_not_found e) cr
  handle_fetch_error (config_map_access_denied e) cr =
      handle_permanent_error (config_map_access_denied e) cr
  handle_fetch_error e cr = handle_transient_error e cr

  -- Steps 3 to 6, for the version of the image.
  unfoldable pub resolve_version : String → Feature
  resolve_version version cr = do
    fetched ← fetch_config_map
    on_result fetched
        (λ config_map.
          on_result (lookup_bluefield_image config_map version)
            (λ image.
              on_option (validate_bluefield_image_url image version)
                (λ e. handle_permanent_error e cr) (update_status_on_success image version cr))
            (λ e. handle_permanent_error e cr))
        (λ e. handle_fetch_error e cr)

  unfoldable pub resolve_bluefield_image : Feature
  resolve_bluefield_image cr =
      if cr.spec.ocp_release_image == ""
      then handle_validation_error (invalid_image_format "ocpReleaseImage is required but empty" "")
          cr
      else on_result (extract_ocp_version cr.spec.ocp_release_image)
          (λ version. resolve_version version cr)
          (λ text. handle_validation_error (invalid_image_format text cr.spec.ocp_release_image) cr)
