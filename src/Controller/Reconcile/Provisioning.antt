-- ===== src/Controller/Reconcile/Provisioning.antt =====
-- A whole `Reconcile`, and the HostedClusters and NodePools that it creates.
use dpf_hcp_bridge_operator.Base.{
  true, false, List, ◌∷◌, ◌≡◌, refl, ◌⊎◌, inl, inr, is_some, Bool-cases,
}
use dpf_hcp_bridge_operator.Types.{DpfHcpBridge, NamespacedName}
use dpf_hcp_bridge_operator.Platform.{
  Client, Meta, Trace, Call, ConditionLaws, ok, Reply-cases, ◌>>=◌, pure, call, on_reply,
}
use dpf_hcp_bridge_operator.Platform.Only.{Logged, Only-Logged, Made-earlier}
use dpf_hcp_bridge_operator.Report.Laws.{StatusEcho}
use dpf_hcp_bridge_operator.HostedCluster.StatusSync.{ConditionMapping}
use dpf_hcp_bridge_operator.Controller.Phase.{update_phase_from_conditions}
use dpf_hcp_bridge_operator.Controller.PhaseLaws.{update_phase-meta, update_phase-spec}
use dpf_hcp_bridge_operator.Controller.Deletion.{finalizer_name, registered_handlers}
use dpf_hcp_bridge_operator.Controller.Reconcile.{reconcile}
use dpf_hcp_bridge_operator.Controller.Reconcile.Validated.{Validated}
use dpf_hcp_bridge_operator.Controller.Reconcile.Guarded.{
  Provisioned, bridge-guarded, bridge-anything,
}

-- The bridge of the request was fetched, is not being deleted, has the finalizer, and passed the
-- validations.
abbrev pub Admitted : Meta → NamespacedName → Trace → Type 0
Admitted m req t =
    (b : DpfHcpBridge) × Logged (Call.get_bridge req (ok b)) t
    × (is_some b.meta.deletion_timestamp ≡ false)
    × (m.contains_finalizer b.meta finalizer_name ≡ true)
    × Validated b t

same_bridge :
    {a b : DpfHcpBridge} {t : Trace}
    → a.meta ≡ b.meta
    → a.spec ≡ b.spec
    → Validated a t
    → Validated b t
same_bridge e f v = record {
  cluster = v.cluster;
  bridges = v.bridges;
  fetched = rw f at v.fetched;
  valid_type = v.valid_type;
  listed = v.listed;
  exclusive = rw e at v.exclusive;
  ssh = rw (e, f) at v.ssh;
  pull = rw (e, f) at v.pull;
}

module _ {m : Meta} {k : Client} (laws : ConditionLaws m) (e : StatusEcho k) where
  -- Where the conditions behave as documented and the server stores the status that it is sent: a
  -- reconciliation with the handlers that the program registers that creates, or tries to create, a
  -- HostedCluster or a NodePool has fetched the bridge of the request, which is not being deleted and
  -- has the finalizer, its DPUCluster, which is not of the kamaji type, the list of the bridges, none
  -- of which but itself references that DPUCluster, and both secrets, which hold their keys.
  pub reconcile_creates_only_validated :
      (order : List ConditionMapping) (req : NamespacedName) (h : Trace)
      → Provisioned (reconcile m k (registered_handlers k) order req h).1
      → Provisioned h ⊎ Admitted m req (reconcile m k (registered_handlers k) order req h).1
  unfolding reconcile ◌>>=◌ call on_reply pure
  reconcile_creates_only_validated order req h p = elim (Reply-cases (k.get_bridge h req)) [
    | inr (x, failed) ↦ elim (Bool-cases x.is_not_found) [
      | inl gone ↦ inl (Made-earlier _ _ refl (simp (failed, gone) at p))
      | inr there ↦ inl (Made-earlier _ _ refl (simp (failed, there) at p))
    ]
    | inl (b, got) ↦ rw got (
        let cr = update_phase_from_conditions m b in
        let h' : Trace = Call.get_bridge req (ok b) ∷ h in
        elim (bridge-guarded laws e order cr h' (rw got at p)) [
          | inl before ↦ inl (Made-earlier _ _ refl before)
          | inr (alive, present, v) ↦ inr (
            b,
            Only-Logged _ h' (bridge-anything laws e order cr) (inl refl),
            (rw (update_phase-meta m b) at alive),
            (rw (update_phase-meta m b) at present),
            same_bridge (update_phase-meta m b) (update_phase-spec m b) v,
          )
        ])
  ]
