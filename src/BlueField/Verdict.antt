-- ===== src/BlueField/Verdict.antt =====
-- The BlueField image that a resolution leaves in the status.
use dpf_hcp_bridge_operator.Base.{
  String, true, false, some, ◌≡◌, refl, ap, ◌==◌, ◌⊎◌, inl, inr, Bool-cases, Option-cases, lookup,
}
use dpf_hcp_bridge_operator.Base.Result.{success, on_result, Result-cases}
use dpf_hcp_bridge_operator.Base.Text.{contains}
use dpf_hcp_bridge_operator.Types.{
  DpfHcpBridge, ConfigMap, NamespacedName, condition_true, condition_false,
  bluefield_image_resolved,
}
use dpf_hcp_bridge_operator.Platform.{
  Client, Meta, Trace, Call, ConditionLaws, status_at, ok, Reply-cases, stops, ◌>>=◌, call,
  on_reply, on_option, pure,
}
use dpf_hcp_bridge_operator.Platform.Only.{Logged, Only-Logged}
use dpf_hcp_bridge_operator.Report.{with_outcome}
use dpf_hcp_bridge_operator.Report.Laws.{StatusEcho, seen-report, report-bridge, report-Only}
use dpf_hcp_bridge_operator.BlueField.Version.{extract_ocp_version}
use dpf_hcp_bridge_operator.BlueField.Errors.{ResolveError}
use dpf_hcp_bridge_operator.BlueField.{
  config_map_name, config_map_namespace, with_image, lookup_bluefield_image,
  validate_bluefield_image_url, update_status_on_success, handle_validation_error,
  handle_permanent_error, handle_transient_error, fetch_config_map, handle_fetch_error,
  resolve_version, resolve_bluefield_image,
}

abbrev pub config_map_key : NamespacedName
config_map_key = record { namespace = config_map_namespace; name = config_map_name }

-- The condition is False, and no image is set.
abbrev pub Cleared : Meta → DpfHcpBridge → Type 0
Cleared m cr =
    (status_at m cr.status.conditions bluefield_image_resolved ≡ some condition_false)
    × (cr.status.bluefield_container_image ≡ "")

-- The condition is True, and the image is the entry of the ConfigMap for the version of the release
-- image of the bridge; it has a tag separator.
pub record Resolved (m : Meta) (cr cr' : DpfHcpBridge) (t : Trace) : Type 0 where
  pub version : String
  pub config_map : ConfigMap
  pub status : status_at m cr'.status.conditions bluefield_image_resolved ≡ some condition_true
  pub extracted : extract_ocp_version cr.spec.ocp_release_image ≡ success version
  pub fetched : Logged (Call.get_config_map config_map_key (ok config_map)) t
  pub entry : lookup version config_map.content ≡ some cr'.status.bluefield_container_image
  pub has_tag : contains cr'.status.bluefield_container_image ":" ≡ true

module _ {m : Meta} {k : Client} (laws : ConditionLaws m) (e : StatusEcho k) where
  validation-Cleared :
      (x : ResolveError) (cr : DpfHcpBridge) (h : Trace)
      → Cleared m (handle_validation_error m k x cr h).0.0
  unfolding handle_validation_error with_outcome ◌>>=◌ pure
  validation-Cleared x cr h = (
    rw (seen-report laws e) refl,
    ap (λ b. b.status.bluefield_container_image) (report-bridge laws e _ _ _ _ _ _ _ _).1,
  )

  permanent-Cleared :
      (x : ResolveError) (cr : DpfHcpBridge) (h : Trace)
      → Cleared m (handle_permanent_error m k x cr h).0.0
  unfolding handle_permanent_error with_outcome ◌>>=◌ pure
  permanent-Cleared x cr h = (
    rw (seen-report laws e) refl,
    ap (λ b. b.status.bluefield_container_image) (report-bridge laws e _ _ _ _ _ _ _ _).1,
  )

  transient-stops :
      (x : ResolveError) (cr : DpfHcpBridge) (h : Trace)
      → stops (handle_transient_error m k x cr h).0.1 ≡ true
  unfolding handle_transient_error with_outcome ◌>>=◌ pure
  transient-stops x cr h = refl

  pub success-image :
      (image version : String) (cr : DpfHcpBridge) (h : Trace)
      → (update_status_on_success m k image version cr h).0.0.status.bluefield_container_image
        ≡ image
  unfolding update_status_on_success
  success-image image version cr h =
      ap (λ b. b.status.bluefield_container_image) (report-bridge laws e _ _ _ _ _ _ _ _).1

  pub success-status :
      (image version : String) (cr : DpfHcpBridge) (h : Trace)
      → status_at m
          (update_status_on_success m k image version cr h).0.0.status.conditions
          bluefield_image_resolved
        ≡ some condition_true
  unfolding update_status_on_success
  success-status image version cr h = rw (seen-report laws e) refl

  success-Resolved :
      (image version : String) (d : ConfigMap) (cr : DpfHcpBridge) (h : Trace)
      → extract_ocp_version cr.spec.ocp_release_image ≡ success version
      → Logged (Call.get_config_map config_map_key (ok d)) h
      → lookup version d.content ≡ some image
      → contains image ":" ≡ true
      → Resolved m cr
          (update_status_on_success m k image version cr h).0.0
          (update_status_on_success m k image version cr h).1
  unfolding update_status_on_success
  success-Resolved image version d cr h extracted got entry tag = record {
    version = version;
    config_map = d;
    status = rw (seen-report laws e) refl;
    extracted = extracted;
    fetched = Only-Logged _ h (report-Only m k _ _ _ _ _ _ (with_image cr image)) got;
    entry = rw (success-image image version cr h) entry;
    has_tag = rw (success-image image version cr h) tag;
  }

  fetch_error-Cleared :
      (x : ResolveError) (cr : DpfHcpBridge) (h : Trace)
      → stops (handle_fetch_error m k x cr h).0.1 ≡ false
      → Cleared m (handle_fetch_error m k x cr h).0.0
  unfolding handle_fetch_error
  fetch_error-Cleared (ResolveError.config_map_access_denied x) cr h on = permanent-Cleared _ cr h
  fetch_error-Cleared (ResolveError.config_map_not_found x) cr h on =
      cc (on, transient-stops (ResolveError.config_map_not_found x) cr h)
  fetch_error-Cleared x cr h on = cc (on, transient-stops x cr h)

  image-Verdict :
      (image version : String) (d : ConfigMap) (cr : DpfHcpBridge) (h : Trace)
      → extract_ocp_version cr.spec.ocp_release_image ≡ success version
      → Logged (Call.get_config_map config_map_key (ok d)) h
      → lookup version d.content ≡ some image
      → let r =
          on_option
            (validate_bluefield_image_url image version)
            (λ x. handle_permanent_error m k x cr)
            (update_status_on_success m k image version cr)
            h in
        Cleared m r.0.0 ⊎ Resolved m cr r.0.0 r.1
  unfolding validate_bluefield_image_url on_option
  image-Verdict image version d cr h extracted got entry = elim (Bool-cases (image == "")) [
    | inl empty ↦ rw empty (inl (permanent-Cleared _ cr h))
    | inr filled ↦ rw filled (elim (Bool-cases (contains image ":")) [
      | inr bare ↦ rw bare (inl (permanent-Cleared _ cr h))
      | inl tag ↦ rw tag (inr (success-Resolved image version d cr h extracted got entry tag))
    ])
  ]

  version-Verdict :
      (version : String) (cr : DpfHcpBridge) (h : Trace)
      → extract_ocp_version cr.spec.ocp_release_image ≡ success version
      → stops (resolve_version m k version cr h).0.1 ≡ false
      → Cleared m (resolve_version m k version cr h).0.0
        ⊎ Resolved m cr (resolve_version m k version cr h).0.0 (resolve_version m k version cr h).1
  unfolding resolve_version fetch_config_map lookup_bluefield_image ◌>>=◌ call on_reply on_result
      on_option pure
  version-Verdict version cr h extracted on =
      elim (Reply-cases (k.get_config_map h config_map_key)) [
        | inl (d, got) ↦ rw got (elim (Option-cases (lookup version d.content)) [
          | inl absent ↦ rw absent (inl (permanent-Cleared _ cr _))
          | inr (image, entry) ↦
              rw entry (image-Verdict image version d cr _ extracted (inl refl) entry)
        ])
        | inr (x, failed) ↦ rw failed (inl (fetch_error-Cleared _ cr _ (rw failed at on)))
      ]

  -- Where the conditions behave as documented and the server stores the status that it is sent: a
  -- resolution that lets the reconciliation go on leaves BlueFieldImageResolved False with no image,
  -- or True with the image that the fetched ConfigMap holds under the version of the release image of
  -- the bridge, and that image has a tag separator.
  pub resolve_bluefield_image_verdict :
      (cr : DpfHcpBridge) (h : Trace)
      → stops (resolve_bluefield_image m k cr h).0.1 ≡ false
      → Cleared m (resolve_bluefield_image m k cr h).0.0
        ⊎ Resolved m cr (resolve_bluefield_image m k cr h).0.0 (resolve_bluefield_image m k cr h).1
  unfolding resolve_bluefield_image on_result
  resolve_bluefield_image_verdict cr h on = elim (Bool-cases (cr.spec.ocp_release_image == "")) [
    | inl empty ↦ rw empty (inl (validation-Cleared _ cr h))
    | inr filled ↦ rw filled (elim (Result-cases (extract_ocp_version cr.spec.ocp_release_image)) [
      | inr (text, bad) ↦ rw bad (inl (validation-Cleared _ cr h))
      | inl (version, extracted) ↦
          rw extracted (version-Verdict version cr h extracted (rw (filled, extracted) at on))
    ])
  ]
