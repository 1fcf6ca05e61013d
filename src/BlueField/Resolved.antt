-- ===== src/BlueField/Resolved.antt =====
-- What a resolution of the image leaves in the status, against the answers that it got.
use dpf_hcp_bridge_operator.Base.{String, Bool, true, ◌≡◌, refl, ◌==◌, arith}
use dpf_hcp_bridge_operator.Base.Result.{Result, success, failure, on_result}
use dpf_hcp_bridge_operator.Types.{DpfHcpBridge, ConditionStatus, bluefield_image_resolved}
use dpf_hcp_bridge_operator.Platform.{Client, Meta, Call, ConditionLaws, EventType, Action, Outcome}
use dpf_hcp_bridge_operator.Platform.Only.{Only, only_rules, Only-weaken, Only-result}
use dpf_hcp_bridge_operator.Report.{report_with}
use dpf_hcp_bridge_operator.Report.Laws.{
  StatusEcho, Frame, reporting, report-Only, with_outcome-Only,
}
use dpf_hcp_bridge_operator.Report.Framed.{
  Framed, framed_rules, report-Framed, with_outcome-Framed, Framed-from,
}
use dpf_hcp_bridge_operator.BlueField.Errors.{ResolveError}
use dpf_hcp_bridge_operator.BlueField.{
  with_image, update_status_on_success, handle_validation_error, handle_permanent_error,
  handle_transient_error, fetch_config_map, handle_fetch_error, resolve_version,
  resolve_bluefield_image,
}

-- The calls of the resolver.
abbrev pub resolving : Call → Bool
resolving (Call.get_config_map key r) = true
resolving c = reporting c

reporting→resolving : (c : Call) → reporting c ≡ true → resolving c ≡ true
reporting→resolving c h = ground arith

reports-Only :
    (m : Meta) (k : Client) (event_type : EventType) (kind : String) (status : ConditionStatus)
    (reason message event_message : String) (cr : DpfHcpBridge)
    → Only resolving (report_with m k event_type kind status reason message event_message cr)
reports-Only m k t kind status reason message event_message cr =
    Only-weaken reporting→resolving (report-Only m k t kind status reason message event_message cr)

Framed-result :
    {E A : Type 0} {m : Meta} {own : String → Bool} {cr : DpfHcpBridge} (r : Result E A)
    (f : A → Action (DpfHcpBridge × Outcome)) (g : E → Action (DpfHcpBridge × Outcome))
    → ((a : A) → Framed m own cr (f a))
    → ((x : E) → Framed m own cr (g x))
    → Framed m own cr (on_result r f g)
unfolding on_result
Framed-result (success a) f g of og = of a
Framed-result (failure x) f g of og = og x

module _ (m : Meta) (k : Client) where
  transient-Only :
      (x : ResolveError) (cr : DpfHcpBridge) → Only resolving (handle_transient_error m k x cr)
  unfolding handle_transient_error
  transient-Only x cr = search (with_outcome-Only, reports-Only)

  permanent-Only :
      (x : ResolveError) (cr : DpfHcpBridge) → Only resolving (handle_permanent_error m k x cr)
  unfolding handle_permanent_error
  permanent-Only x cr = search (with_outcome-Only, reports-Only)

  fetch_error-Only :
      (x : ResolveError) (cr : DpfHcpBridge) → Only resolving (handle_fetch_error m k x cr)
  unfolding handle_fetch_error
  fetch_error-Only (ResolveError.config_map_access_denied x) cr = permanent-Only _ cr
  fetch_error-Only _ cr = transient-Only _ cr

  -- A resolution calls only to read a ConfigMap and the clock, to emit events, and to store the status
  -- of the bridge, whatever the answers are.
  pub resolve_bluefield_image-Only :
      (cr : DpfHcpBridge) → Only resolving (resolve_bluefield_image m k cr)
  unfolding resolve_bluefield_image resolve_version fetch_config_map handle_validation_error
      update_status_on_success
  resolve_bluefield_image-Only cr =
      search
        (only_rules, Only-result, with_outcome-Only, reports-Only, permanent-Only, fetch_error-Only)
        depth 16

module _ {m : Meta} {k : Client} (laws : ConditionLaws m) (e : StatusEcho k) where
  abbrev own : String → Bool
  own x = bluefield_image_resolved == x

  with_image-Frame : (image : String) (cr : DpfHcpBridge) → Frame m own cr (with_image cr image)
  with_image-Frame image cr = record {
    meta = refl;
    spec = refl;
    phase = refl;
    hosted_cluster_ref = refl;
    others = λ kind out. refl;
  }

  transient-Framed :
      (x : ResolveError) (cr : DpfHcpBridge) → Framed m own cr (handle_transient_error m k x cr)
  unfolding handle_transient_error
  transient-Framed x cr = search (with_outcome-Framed, report-Framed laws e)

  permanent-Framed :
      (x : ResolveError) (cr : DpfHcpBridge) → Framed m own cr (handle_permanent_error m k x cr)
  unfolding handle_permanent_error
  permanent-Framed x cr =
      Framed-from (with_image-Frame "" cr) (search (with_outcome-Framed, report-Framed laws e))

  fetch_error-Framed :
      (x : ResolveError) (cr : DpfHcpBridge) → Framed m own cr (handle_fetch_error m k x cr)
  unfolding handle_fetch_error
  fetch_error-Framed (ResolveError.config_map_access_denied x) cr = permanent-Framed _ cr
  fetch_error-Framed _ cr = transient-Framed _ cr

  validation-Framed :
      (x : ResolveError) (cr : DpfHcpBridge) → Framed m own cr (handle_validation_error m k x cr)
  unfolding handle_validation_error
  validation-Framed x cr =
      Framed-from (with_image-Frame "" cr) (search (with_outcome-Framed, report-Framed laws e))

  success-Framed :
      (image version : String) (cr : DpfHcpBridge)
      → Framed m own cr (update_status_on_success m k image version cr)
  unfolding update_status_on_success
  success-Framed image version cr =
      Framed-from (with_image-Frame image cr) (search (report-Framed laws e))

  pub resolve_bluefield_image-Framed :
      (cr : DpfHcpBridge) → Framed m own cr (resolve_bluefield_image m k cr)
  unfolding resolve_bluefield_image resolve_version fetch_config_map
  resolve_bluefield_image-Framed cr =
      search
        (
          framed_rules, Framed-result, permanent-Framed, fetch_error-Framed, validation-Framed,
          success-Framed,
        )
        depth 16
