-- ===== src/BlueField/Accepted.antt =====
-- A resolution that goes on, where the ConfigMap holds an image for the release.
use dpf_hcp_bridge_operator.Base.{String, true, some, ◌≡◌, ◌≢◌, lookup, eq_apart}
use dpf_hcp_bridge_operator.Base.Result.{success, on_result}
use dpf_hcp_bridge_operator.Base.Text.{contains}
use dpf_hcp_bridge_operator.Types.{
  DpfHcpBridge, ConfigMap, condition_true, bluefield_image_resolved,
}
use dpf_hcp_bridge_operator.Platform.{
  Client, Meta, Trace, ConditionLaws, status_at, ok, done, ◌>>=◌, call, on_reply, on_option, pure,
}
use dpf_hcp_bridge_operator.Report.Laws.{StatusEcho}
use dpf_hcp_bridge_operator.Report.Stored.{report-done}
use dpf_hcp_bridge_operator.BlueField.Version.{extract_ocp_version}
use dpf_hcp_bridge_operator.BlueField.{
  lookup_bluefield_image, validate_bluefield_image_url, fetch_config_map, resolve_version,
  update_status_on_success, resolve_bluefield_image,
}
use dpf_hcp_bridge_operator.BlueField.Verdict.{config_map_key}
use dpf_hcp_bridge_operator.BlueField.Complete.{resolve_bluefield_image_complete}

-- The release image of the bridge has a version, for which the ConfigMap holds an image with a tag separator.
pub record Resolvable (k : Client) (cr : DpfHcpBridge) (h : Trace) : Type 0 where
  pub version : String
  pub given : cr.spec.ocp_release_image ≢ ""
  pub extracts : extract_ocp_version cr.spec.ocp_release_image ≡ success version
  pub config_map : ConfigMap
  pub fetched : k.get_config_map h config_map_key ≡ ok config_map
  pub image : String
  pub holds : lookup version config_map.content ≡ some image
  pub filled : image ≢ ""
  pub tagged : contains image ":" ≡ true

module _ {m : Meta} {k : Client} (laws : ConditionLaws m) (e : StatusEcho k)
    (stored : (t : Trace) (b : DpfHcpBridge) → k.update_bridge_status t b ≡ ok b) where
  pub resolve_bluefield_image-Accepted :
      (cr : DpfHcpBridge) (h : Trace)
      → Resolvable k cr h
      → let r = resolve_bluefield_image m k cr h in
        (r.0.1 ≡ done)
        × (status_at m r.0.0.status.conditions bluefield_image_resolved ≡ some condition_true)
  unfolding resolve_bluefield_image resolve_version fetch_config_map lookup_bluefield_image
      validate_bluefield_image_url update_status_on_success ◌>>=◌ call on_reply on_option on_result
      pure
  resolve_bluefield_image-Accepted cr h a = (
    simp (
      eq_apart _ _ a.given,
      a.extracts,
      a.fetched,
      a.holds,
      eq_apart _ _ a.filled,
      a.tagged,
      report-done m k stored,
    ),
    (resolve_bluefield_image_complete laws e cr a.config_map a.version a.image h a.given a.extracts
        a.fetched a.holds a.filled a.tagged).1,
  )
