-- ===== src/BlueField/Complete.antt =====
-- The resolution of an image that the ConfigMap holds.
use dpf_hcp_bridge_operator.Base.{eq_apart, String, true, some, ◌≡◌, ◌≢◌, lookup}
use dpf_hcp_bridge_operator.Base.Result.{success, on_result}
use dpf_hcp_bridge_operator.Base.Text.{contains}
use dpf_hcp_bridge_operator.Types.{
  DpfHcpBridge, ConfigMap, condition_true, bluefield_image_resolved,
}
use dpf_hcp_bridge_operator.Platform.{
  Client, Meta, Trace, ConditionLaws, status_at, ok, ◌>>=◌, call, on_reply, on_option, pure,
}
use dpf_hcp_bridge_operator.Report.Laws.{StatusEcho}
use dpf_hcp_bridge_operator.BlueField.Version.{extract_ocp_version}
use dpf_hcp_bridge_operator.BlueField.{
  lookup_bluefield_image, validate_bluefield_image_url, fetch_config_map, resolve_version,
  resolve_bluefield_image,
}
use dpf_hcp_bridge_operator.BlueField.Verdict.{config_map_key, success-image, success-status}

module _ {m : Meta} {k : Client} (laws : ConditionLaws m) (e : StatusEcho k) where
  -- Where the conditions behave as documented and the server stores the status that it is sent: where
  -- the release image has a version and the ConfigMap is fetched and holds for it an image that is
  -- not empty and has a tag separator, the resolution leaves that image in the status, and
  -- BlueFieldImageResolved True.
  pub resolve_bluefield_image_complete :
      (cr : DpfHcpBridge) (config_map : ConfigMap) (version image : String) (h : Trace)
      → cr.spec.ocp_release_image ≢ ""
      → extract_ocp_version cr.spec.ocp_release_image ≡ success version
      → k.get_config_map h config_map_key ≡ ok config_map
      → lookup version config_map.content ≡ some image
      → image ≢ ""
      → contains image ":" ≡ true
      → let cr' = (resolve_bluefield_image m k cr h).0.0 in
        (cr'.status.bluefield_container_image ≡ image)
        × (status_at m cr'.status.conditions bluefield_image_resolved ≡ some condition_true)
  unfolding resolve_bluefield_image resolve_version fetch_config_map lookup_bluefield_image
      validate_bluefield_image_url ◌>>=◌ call on_reply on_option on_result pure
  resolve_bluefield_image_complete cr config_map version image h given extracts got holds filled
        tagged =
      simp (eq_apart _ _ given, extracts, got, holds, eq_apart _ _ filled, tagged)
        (success-image laws e image version cr _, success-status laws e image version cr _)
