-- ===== src/BlueField/Again.antt =====
-- The resolution of the image when it runs again, while the server answers for the ConfigMap as before.
use dpf_hcp_bridge_operator.Base.{[], ◌∷◌, ◌≡◌}
use dpf_hcp_bridge_operator.Base.Result.{Result}
use dpf_hcp_bridge_operator.Types.{ConfigMap}
use dpf_hcp_bridge_operator.Platform.{Client, Meta, Trace, Call, Reply, ConditionLaws}
use dpf_hcp_bridge_operator.Report.Laws.{StatusEcho}
use dpf_hcp_bridge_operator.BlueField.Errors.{ResolveError}
use dpf_hcp_bridge_operator.BlueField.{fetch_config_map}
use dpf_hcp_bridge_operator.BlueField.Verdict.{config_map_key}

module _ {m : Meta} {k : Client} (laws : ConditionLaws m) (e : StatusEcho k) where
  module _ (read : Reply ConfigMap)
      (unchanging : (u : Trace) → k.get_config_map u config_map_key ≡ read) where
    abbrev fetching : Trace → Trace
    fetching u = Call.get_config_map config_map_key read ∷ u

    -- What each fetch of the ConfigMap gives.
    abbrev given : Result ResolveError ConfigMap
    given = (fetch_config_map m k []).0
