-- ===== src/DpuCluster/Accepted.antt =====
-- What the validation of the DPUCluster leaves, where there is nothing to object to.
use dpf_hcp_bridge_operator.Base.{false, some, none, List, ◌≡◌, refl, ◌∙◌, ap, ◌==◌, ◌∷◌, All}
use dpf_hcp_bridge_operator.Types.{
  DpfHcpBridge, DpuCluster, condition_true, condition_false, dpu_cluster_missing,
  cluster_type_valid, dpu_cluster_in_use,
}
use dpf_hcp_bridge_operator.Platform.{
  Client, Meta, Trace, Call, Outcome, ConditionLaws, status_at, status?, ok, done, ◌>>=◌, call,
  on_reply, on_option, ◌and_then◌,
}
use dpf_hcp_bridge_operator.Platform.Only.{Grows, same, more, Grows-trans}
use dpf_hcp_bridge_operator.Report.Laws.{StatusEcho, and_then-on, seen-report}
use dpf_hcp_bridge_operator.Report.Stored.{report-done}
use dpf_hcp_bridge_operator.DpuCluster.{
  kamaji_cluster, validate_cluster_type, validate_dpu_cluster_exclusivity, find_conflict,
  handle_cluster_type_valid, handle_dpu_cluster_available, handle_dpu_cluster_found,
  validate_dpu_cluster,
}
use dpf_hcp_bridge_operator.DpuCluster.Exclusivity.{
  Harmless, find_conflict-none_iff, find_conflict-eq_of_meta,
}
use dpf_hcp_bridge_operator.DpuCluster.Outcome.{
  validating, validate_cluster_type-Only, type_condition, type-Frame, exclusivity-Frame,
  found_condition, found-Frame,
}
use dpf_hcp_bridge_operator.DpuCluster.Verdict.{cluster_key}

-- The server has the DPUCluster of the bridge, of another type than kamaji, and lists no other bridge that
-- references it.
pub record Assignable (k : Client) (cr : DpfHcpBridge) (h : Trace) : Type 0 where
  pub cluster : DpuCluster
  pub fetched : k.get_dpu_cluster h (cluster_key cr) ≡ ok cluster
  pub type_supported : (cluster.kind == kamaji_cluster) ≡ false
  pub bridges : List DpfHcpBridge
  pub listed : (t : Trace) → Grows validating h t → k.list_bridges t ≡ ok bridges
  pub harmless : All (Harmless cr cluster) bridges

-- The validation goes on, and none of its three conditions is bad.
pub record Accepted (m : Meta) (r : (DpfHcpBridge × Outcome) × Trace) : Type 0 where
  pub goes_on : r.0.1 ≡ done
  pub missing : status_at m r.0.0.status.conditions dpu_cluster_missing ≡ some condition_false
  pub type_valid : status_at m r.0.0.status.conditions cluster_type_valid ≡ some condition_true
  pub in_use : status_at m r.0.0.status.conditions dpu_cluster_in_use ≡ some condition_false

module _ {m : Meta} {k : Client} (laws : ConditionLaws m) (e : StatusEcho k)
    (stored : (t : Trace) (b : DpfHcpBridge) → k.update_bridge_status t b ≡ ok b) where
  validate_cluster_type-done :
      (d : DpuCluster) (cr : DpfHcpBridge) (h : Trace)
      → (d.kind == kamaji_cluster) ≡ false
      → (validate_cluster_type m k d cr h).0.1 ≡ done
  unfolding validate_cluster_type handle_cluster_type_valid
  validate_cluster_type-done d cr h supported =
      rw supported (report-done m k stored _ _ _ _ _ _ cr h)

  exclusivity-available :
      (d : DpuCluster) (cr : DpfHcpBridge) (h : Trace) (bs : List DpfHcpBridge)
      → k.list_bridges h ≡ ok bs
      → find_conflict cr d bs ≡ none
      → let r = validate_dpu_cluster_exclusivity m k d cr h in
        (r.0.1 ≡ done)
        × (status_at m r.0.0.status.conditions dpu_cluster_in_use ≡ some condition_false)
  unfolding validate_dpu_cluster_exclusivity handle_dpu_cluster_available ◌>>=◌ call on_reply
      on_option
  exclusivity-available d cr h bs listed free =
      rw listed (rw free (report-done m k stored _ _ _ _ _ _ cr _, rw (seen-report laws e) refl))

  found-done :
      (d : DpuCluster) (cr : DpfHcpBridge) (h : Trace)
      → (handle_dpu_cluster_found m k d cr h).0.1 ≡ done
  unfolding handle_dpu_cluster_found
  found-done d cr h = report-done m k stored _ _ _ _ _ _ cr h

  pub validate_dpu_cluster-Accepted :
      (cr : DpfHcpBridge) (h : Trace)
      → Assignable k cr h
      → Accepted m (validate_dpu_cluster m k cr h)
  unfolding validate_dpu_cluster ◌>>=◌ call on_reply
  validate_dpu_cluster-Accepted cr h a =
      let d = a.cluster in
      let h' : Trace = Call.get_dpu_cluster (cluster_key cr) (ok d) ∷ h in
      let f = validate_cluster_type m k d in
      let g = validate_dpu_cluster_exclusivity m k d in
      let u = handle_dpu_cluster_found m k d in
      let cr1 = (f cr h').0.0 in
      let t1 = (f cr h').1 in
      let cr2 = (g cr1 t1).0.0 in
      let t2 = (g cr1 t1).1 in
      let w1 = type-Frame laws e d cr h' in
      let w2 = exclusivity-Frame laws e d cr1 t1 in
      let w3 = found-Frame laws e d cr2 t2 in
      let on1 = validate_cluster_type-done d cr h' a.type_supported in
      let listed =
        a.listed t1
          (Grows-trans (more _ refl same) ((validate_cluster_type-Only m k d cr).at h')) in
      let free =
        find_conflict-eq_of_meta cr1 cr d a.bridges w1.meta
        ∙ (find_conflict-none_iff cr d a.bridges).1 a.harmless in
      let (on2, available) = exclusivity-available d cr1 t1 a.bridges listed free in
      rw a.fetched (
        rw (and_then-on f (g and_then u) cr h' on1) (
          rw (and_then-on g u cr1 t1 on2) (record {
            goes_on = found-done d cr2 t2;
            missing = found_condition laws e d cr2 t2;
            type_valid =
                ap status? (w3.others cluster_type_valid refl)
                ∙ ap status? (w2.others cluster_type_valid refl)
                ∙ rw a.type_supported at (type_condition laws e d cr h');
            in_use = ap status? (w3.others dpu_cluster_in_use refl) ∙ available;
          })))
