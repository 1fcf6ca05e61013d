-- ===== src/DpuCluster/Verdict.antt =====
-- The conditions that a whole validation of the DPUCluster leaves, against the answers that it got.
use dpf_hcp_bridge_operator.Base.{
  String, Bool, false, some, List, ◌≡◌, refl, ◌∙◌, ap, ◌==◌, arith, ◌⊎◌, inl, inr, ◌||◌,
  if◌then◌else◌, is_some, Bool-cases,
}
use dpf_hcp_bridge_operator.Types.{
  DpfHcpBridge, DpuCluster, condition_true, condition_false, NamespacedName, dpu_cluster_missing,
  cluster_type_valid, dpu_cluster_in_use,
}
use dpf_hcp_bridge_operator.Platform.{
  Client, Meta, Trace, Call, ConditionLaws, status_at, status?, ok, Reply-cases, stops, ◌>>=◌, call,
  on_reply, pure, ◌and_then◌, Feature,
}
use dpf_hcp_bridge_operator.Platform.Only.{Logged, Only-Logged}
use dpf_hcp_bridge_operator.Report.Laws.{
  StatusEcho, Frame, Frame-refl, Frame-weaken, and_then-inversion, and_then-Frame,
}
use dpf_hcp_bridge_operator.DpuCluster.{
  kamaji_cluster, validate_cluster_type, validate_dpu_cluster_exclusivity, find_conflict,
  handle_dpu_cluster_found, handle_dpu_cluster_missing, handle_dpu_cluster_access_denied,
  validate_dpu_cluster,
}
use dpf_hcp_bridge_operator.DpuCluster.Exclusivity.{find_conflict-eq_of_meta}
use dpf_hcp_bridge_operator.DpuCluster.Outcome.{
  validate_cluster_type-Only, exclusivity-Only, found-Only, type_condition, type-Frame,
  exclusivity-Frame, exclusivity_condition, found_condition, found-Frame, missing_condition,
  denied_condition, missing-Frame, denied-Frame,
}

abbrev pub cluster_key : DpfHcpBridge → NamespacedName
cluster_key cr = record {
  namespace = cr.spec.dpu_cluster_ref.namespace;
  name = cr.spec.dpu_cluster_ref.name;
}

-- The three conditions of a DPUCluster that was fetched, and the answers behind them.
pub record Checked (m : Meta) (cr cr' : DpfHcpBridge) (t : Trace) : Type 0 where
  pub cluster : DpuCluster
  pub bridges : List DpfHcpBridge
  pub fetched : Logged (Call.get_dpu_cluster (cluster_key cr) (ok cluster)) t
  pub listed : Logged (Call.list_bridges (ok bridges)) t
  pub missing : status_at m cr'.status.conditions dpu_cluster_missing ≡ some condition_false
  pub type_valid :
      status_at m cr'.status.conditions cluster_type_valid
      ≡ some (if cluster.kind == kamaji_cluster then condition_false else condition_true)
  pub in_use :
      status_at m cr'.status.conditions dpu_cluster_in_use
      ≡ some
          (if is_some (find_conflict cr cluster bridges) then condition_true else condition_false)

-- A validation that goes on has either set DPUClusterMissing to True, or checked a DPUCluster.
abbrev pub Verdict : Meta → DpfHcpBridge → DpfHcpBridge → Trace → Type 0
Verdict m cr cr' t =
    (status_at m cr'.status.conditions dpu_cluster_missing ≡ some condition_true)
    ⊎ Checked m cr cr' t

abbrev pub dpu_conditions : String → Bool
dpu_conditions x = dpu_cluster_missing == x || cluster_type_valid == x || dpu_cluster_in_use == x

missing-owned :
    (kind : String) → dpu_conditions kind ≡ false → (dpu_cluster_missing == kind) ≡ false
missing-owned kind h = ground arith

type-owned : (kind : String) → dpu_conditions kind ≡ false → (cluster_type_valid == kind) ≡ false
type-owned kind h = ground arith

in_use-owned : (kind : String) → dpu_conditions kind ≡ false → (dpu_cluster_in_use == kind) ≡ false
in_use-owned kind h = ground arith

module _ {m : Meta} {k : Client} (laws : ConditionLaws m) (e : StatusEcho k) where
  abbrev pipeline : DpuCluster → Feature
  pipeline d =
      validate_cluster_type m k d
      and_then validate_dpu_cluster_exclusivity m k d
      and_then handle_dpu_cluster_found m k d

  checked :
      (d : DpuCluster) (cr : DpfHcpBridge) (h : Trace)
      → Logged (Call.get_dpu_cluster (cluster_key cr) (ok d)) h
      → stops (pipeline d cr h).0.1 ≡ false
      → Checked m cr (pipeline d cr h).0.0 (pipeline d cr h).1
  checked d cr h got on =
      let f = validate_cluster_type m k d in
      let g = validate_dpu_cluster_exclusivity m k d in
      let u = handle_dpu_cluster_found m k d in
      let cr1 = (f cr h).0.0 in
      let t1 = (f cr h).1 in
      let cr2 = (g cr1 t1).0.0 in
      let t2 = (g cr1 t1).1 in
      let p1 = and_then-inversion f (g and_then u) cr h on in
      let on1 = (rw p1.1 at on) in
      let p2 = and_then-inversion g u cr1 t1 on1 in
      let x = exclusivity_condition laws e d cr1 t1 p2.0 in
      let w = found-Frame laws e d cr2 t2 in
      rw p1.1 (
        rw p2.1 (record {
          cluster = d;
          bridges = x.0;
          fetched = Only-Logged _ t2 (found-Only m k d cr2) (
              Only-Logged _ t1 (exclusivity-Only m k d cr1)
                (Only-Logged _ h (validate_cluster_type-Only m k d cr) got));
          listed = Only-Logged _ t2 (found-Only m k d cr2) x.1;
          missing = found_condition laws e d cr2 t2;
          type_valid =
              ap status? (w.others cluster_type_valid refl)
              ∙ ap status? ((exclusivity-Frame laws e d cr1 t1).others cluster_type_valid refl)
              ∙ type_condition laws e d cr h;
          in_use =
              ap status? (w.others dpu_cluster_in_use refl)
              ∙ (rw (find_conflict-eq_of_meta cr1 cr d x.0 (type-Frame laws e d cr h).meta) at x.2);
        }))

  -- Where the conditions behave as documented and the server stores the status that it is sent: a
  -- validation that lets the reconciliation go on leaves DPUClusterMissing True, or it fetched the
  -- DPUCluster and the list of the bridges, and leaves DPUClusterMissing False, ClusterTypeValid False
  -- exactly for the kamaji type, and DPUClusterInUse True exactly if the list holds a conflict.
  pub validate_dpu_cluster-Verdict :
      (cr : DpfHcpBridge) (h : Trace)
      → stops (validate_dpu_cluster m k cr h).0.1 ≡ false
      → Verdict m cr (validate_dpu_cluster m k cr h).0.0 (validate_dpu_cluster m k cr h).1
  unfolding validate_dpu_cluster handle_dpu_cluster_missing handle_dpu_cluster_access_denied ◌>>=◌
      call on_reply pure
  validate_dpu_cluster-Verdict cr h on = elim (Reply-cases (k.get_dpu_cluster h (cluster_key cr))) [
    | inl (d, got) ↦ rw got (inr (checked d cr _ (inl refl) (rw got at on)))
    | inr (x, failed) ↦ rw failed (elim (Bool-cases x.is_not_found) [
      | inl gone ↦ rw gone (inl (missing_condition laws e cr.spec.dpu_cluster_ref cr _))
      | inr there ↦ rw there (elim (Bool-cases x.is_forbidden) [
        | inl denied ↦ rw denied (inl (denied_condition laws e cr.spec.dpu_cluster_ref x cr _))
        | inr other ↦ cc (rw (failed, there, other) at on)
      ])
    ])
  ]

  -- The conditions that the validator owns.
  pub validate_dpu_cluster-Frame :
      (cr : DpfHcpBridge) (h : Trace)
      → Frame m dpu_conditions cr (validate_dpu_cluster m k cr h).0.0
  unfolding validate_dpu_cluster ◌>>=◌ call on_reply pure
  validate_dpu_cluster-Frame cr h = elim (Reply-cases (k.get_dpu_cluster h (cluster_key cr))) [
    | inl (d, got) ↦ rw got (
        and_then-Frame _ _ cr _ (Frame-weaken type-owned (type-Frame laws e d cr _)) (λ b t.
          and_then-Frame _ _ b t (Frame-weaken in_use-owned (exclusivity-Frame laws e d b t))
            (λ b' t'. Frame-weaken missing-owned (found-Frame laws e d b' t'))))
    | inr (x, failed) ↦ rw failed (elim (Bool-cases x.is_not_found) [
      | inl gone ↦
          simp gone (Frame-weaken missing-owned (missing-Frame laws e cr.spec.dpu_cluster_ref cr _))
      | inr there ↦ simp there (elim (Bool-cases x.is_forbidden) [
        | inl denied ↦
            simp denied
              (Frame-weaken missing-owned (denied-Frame laws e cr.spec.dpu_cluster_ref x cr _))
        | inr other ↦ simp other (Frame-refl cr)
      ])
    ])
  ]
