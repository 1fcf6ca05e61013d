-- ===== src/DpuCluster/Outcome.antt =====
-- What a validation of the DPUCluster leaves in the conditions.
use dpf_hcp_bridge_operator.Base.{
  String, Bool, true, false, some, List, ◌≡◌, refl, ◌==◌, arith, inl, inr, if◌then◌else◌, is_some,
  Bool-cases, Option-cases,
}
use dpf_hcp_bridge_operator.Types.{
  DpfHcpBridge, DpuCluster, DpuClusterReference, ConditionStatus, condition_true, condition_false,
  dpu_cluster_missing, cluster_type_valid, dpu_cluster_in_use,
}
use dpf_hcp_bridge_operator.Platform.{
  Client, Meta, ApiError, Trace, Call, ConditionLaws, status_at, ok, Reply-cases, stops, ◌>>=◌,
  call, on_reply, on_option, pure,
}
use dpf_hcp_bridge_operator.Platform.Only.{Only, only_rules, Logged, Only-Logged, Only-weaken}
use dpf_hcp_bridge_operator.Report.{report_with}
use dpf_hcp_bridge_operator.Report.Laws.{
  StatusEcho, Frame, Frame-refl, seen-report, report-Frame, reporting, report-Only,
}
use dpf_hcp_bridge_operator.DpuCluster.{
  kamaji_cluster, was_found, validate_cluster_type, handle_cluster_type_valid,
  handle_cluster_type_invalid, validate_dpu_cluster_exclusivity, handle_dpu_cluster_in_use,
  handle_dpu_cluster_available, find_conflict, handle_dpu_cluster_found, handle_dpu_cluster_missing,
  handle_dpu_cluster_access_denied, validate_dpu_cluster,
}

-- The calls of the validator: it reads DPUClusters and bridges, and writes the status only.
abbrev pub validating : Call → Bool
validating (Call.get_dpu_cluster key r) = true
validating (Call.list_bridges r) = true
validating c = reporting c

reporting→validating : (c : Call) → reporting c ≡ true → validating c ≡ true
reporting→validating c h = ground arith

pub reports-Only :
    (m : Meta) (k : Client) (event_type : _) (kind : String) (status : ConditionStatus)
    (reason message event_message : String) (cr : DpfHcpBridge)
    → Only validating (report_with m k event_type kind status reason message event_message cr)
reports-Only m k t kind status reason message event_message cr =
    Only-weaken reporting→validating (report-Only m k t kind status reason message event_message cr)

pub validate_cluster_type-Only :
    (m : Meta) (k : Client) (d : DpuCluster) (cr : DpfHcpBridge)
    → Only validating (validate_cluster_type m k d cr)
unfolding validate_cluster_type handle_cluster_type_valid handle_cluster_type_invalid
validate_cluster_type-Only m k d cr = search (only_rules, reports-Only) depth 12

pub exclusivity-Only :
    (m : Meta) (k : Client) (d : DpuCluster) (cr : DpfHcpBridge)
    → Only validating (validate_dpu_cluster_exclusivity m k d cr)
unfolding validate_dpu_cluster_exclusivity handle_dpu_cluster_in_use handle_dpu_cluster_available
exclusivity-Only m k d cr = search (only_rules, reports-Only) depth 12

pub found-Only :
    (m : Meta) (k : Client) (d : DpuCluster) (cr : DpfHcpBridge)
    → Only validating (handle_dpu_cluster_found m k d cr)
unfolding handle_dpu_cluster_found
found-Only m k d cr = reports-Only m k _ _ _ _ _ _ cr

-- A validation calls only to read DPUClusters, bridges and the clock, to emit events, and to store
-- the status of the bridge, whatever the answers are.
pub validate_dpu_cluster-Only :
    (m : Meta) (k : Client) (cr : DpfHcpBridge) → Only validating (validate_dpu_cluster m k cr)
unfolding validate_dpu_cluster handle_dpu_cluster_found handle_dpu_cluster_missing
    handle_dpu_cluster_access_denied
validate_dpu_cluster-Only m k cr =
    search (only_rules, reports-Only, validate_cluster_type-Only, exclusivity-Only) depth 12

module _ {m : Meta} {k : Client} (laws : ConditionLaws m) (e : StatusEcho k) where
  pub type_condition :
      (d : DpuCluster) (cr : DpfHcpBridge) (h : Trace)
      → status_at m (validate_cluster_type m k d cr h).0.0.status.conditions cluster_type_valid
        ≡ some (if d.kind == kamaji_cluster then condition_false else condition_true)
  unfolding validate_cluster_type handle_cluster_type_valid handle_cluster_type_invalid
  type_condition d cr h = elim (Bool-cases (d.kind == kamaji_cluster)) [
    | inl y ↦ rw y (rw (seen-report laws e) refl)
    | inr n ↦ rw n (rw (seen-report laws e) refl)
  ]

  pub type-Frame :
      (d : DpuCluster) (cr : DpfHcpBridge) (h : Trace)
      → Frame m (λ x. cluster_type_valid == x) cr (validate_cluster_type m k d cr h).0.0
  unfolding validate_cluster_type handle_cluster_type_valid handle_cluster_type_invalid
  type-Frame d cr h = elim (Bool-cases (d.kind == kamaji_cluster)) [
    | inl y ↦ rw y (report-Frame laws e _ _ _ _ _ _ _ _)
    | inr n ↦ rw n (report-Frame laws e _ _ _ _ _ _ _ _)
  ]

  pub exclusivity-Frame :
      (d : DpuCluster) (cr : DpfHcpBridge) (h : Trace)
      → Frame m (λ x. dpu_cluster_in_use == x) cr (validate_dpu_cluster_exclusivity m k d cr h).0.0
  unfolding validate_dpu_cluster_exclusivity handle_dpu_cluster_in_use handle_dpu_cluster_available
      ◌>>=◌ call on_reply on_option pure
  exclusivity-Frame d cr h = elim (Reply-cases (k.list_bridges h)) [
    | inr (x, failed) ↦ rw failed (Frame-refl cr)
    | inl (bs, listed) ↦ rw listed (elim (Option-cases (find_conflict cr d bs)) [
      | inl free ↦ rw free (report-Frame laws e _ _ _ _ _ _ _ _)
      | inr (b, used) ↦ rw used (report-Frame laws e _ _ _ _ _ _ _ _)
    ])
  ]

  -- A search for conflicts that goes on has listed the bridges and says what it found.
  pub exclusivity_condition :
      (d : DpuCluster) (cr : DpfHcpBridge) (h : Trace)
      → stops (validate_dpu_cluster_exclusivity m k d cr h).0.1 ≡ false
      → (bs : List DpfHcpBridge) × Logged
          (Call.list_bridges (ok bs))
          (validate_dpu_cluster_exclusivity m k d cr h).1
        × (status_at m
              (validate_dpu_cluster_exclusivity m k d cr h).0.0.status.conditions
              dpu_cluster_in_use
            ≡ some (if is_some (find_conflict cr d bs) then condition_true else condition_false))
  unfolding validate_dpu_cluster_exclusivity handle_dpu_cluster_in_use handle_dpu_cluster_available
      ◌>>=◌ call on_reply on_option pure
  exclusivity_condition d cr h on = elim (Reply-cases (k.list_bridges h)) [
    | inr (x, failed) ↦ cc (rw failed at on)
    | inl (bs, listed) ↦ rw listed (elim (Option-cases (find_conflict cr d bs)) [
      | inl free ↦ (
        bs,
        rw free (Only-Logged _ _ (report-Only m k _ _ _ _ _ _ cr) (inl refl)),
        rw free (rw (seen-report laws e) refl),
      )
      | inr (b, used) ↦ (
        bs,
        rw used (Only-Logged _ _ (report-Only m k _ _ _ _ _ _ cr) (inl refl)),
        rw used (rw (seen-report laws e) refl),
      )
    ])
  ]

  pub found_condition :
      (d : DpuCluster) (cr : DpfHcpBridge) (h : Trace)
      → status_at m (handle_dpu_cluster_found m k d cr h).0.0.status.conditions dpu_cluster_missing
        ≡ some condition_false
  unfolding handle_dpu_cluster_found
  found_condition d cr h = rw (seen-report laws e) refl

  pub found-Frame :
      (d : DpuCluster) (cr : DpfHcpBridge) (h : Trace)
      → Frame m (λ x. dpu_cluster_missing == x) cr (handle_dpu_cluster_found m k d cr h).0.0
  unfolding handle_dpu_cluster_found
  found-Frame d cr h = report-Frame laws e _ _ _ _ _ _ _ _

  pub missing_condition :
      (ref : DpuClusterReference) (cr : DpfHcpBridge) (h : Trace)
      → status_at m
          (handle_dpu_cluster_missing m k ref cr h).0.0.status.conditions
          dpu_cluster_missing
        ≡ some condition_true
  unfolding handle_dpu_cluster_missing
  missing_condition ref cr h =
      elim (Bool-cases
        (was_found (m.find_status_condition cr.status.conditions dpu_cluster_missing))) [
          | inl y ↦ rw y (rw (seen-report laws e) refl)
          | inr n ↦ rw n (rw (seen-report laws e) refl)
        ]

  pub denied_condition :
      (ref : DpuClusterReference) (x : ApiError) (cr : DpfHcpBridge) (h : Trace)
      → status_at m
          (handle_dpu_cluster_access_denied m k ref x cr h).0.0.status.conditions
          dpu_cluster_missing
        ≡ some condition_true
  unfolding handle_dpu_cluster_access_denied
  denied_condition ref x cr h = rw (seen-report laws e) refl

  pub missing-Frame :
      (ref : DpuClusterReference) (cr : DpfHcpBridge) (h : Trace)
      → Frame m (λ x. dpu_cluster_missing == x) cr (handle_dpu_cluster_missing m k ref cr h).0.0
  unfolding handle_dpu_cluster_missing
  missing-Frame ref cr h =
      elim (Bool-cases
        (was_found (m.find_status_condition cr.status.conditions dpu_cluster_missing))) [
          | inl y ↦ rw y (report-Frame laws e _ _ _ _ _ _ _ _)
          | inr n ↦ rw n (report-Frame laws e _ _ _ _ _ _ _ _)
        ]

  pub denied-Frame :
      (ref : DpuClusterReference) (x : ApiError) (cr : DpfHcpBridge) (h : Trace)
      → Frame m
          (λ y. dpu_cluster_missing == y)
          cr
          (handle_dpu_cluster_access_denied m k ref x cr h).0.0
  unfolding handle_dpu_cluster_access_denied
  denied-Frame ref x cr h = report-Frame laws e _ _ _ _ _ _ _ _
