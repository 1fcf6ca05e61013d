-- ===== src/DpuCluster/Exclusivity.antt =====
-- The search for another bridge on the same DPUCluster.
use dpf_hcp_bridge_operator.Base.{none, List, [], ◌∷◌, ◌≡◌, refl, ◌↔◌, ◌⊎◌, ◌≢◌, eq_iff, arith, All}
use dpf_hcp_bridge_operator.Types.{DpfHcpBridge, DpuCluster}
use dpf_hcp_bridge_operator.DpuCluster.{find_conflict}

-- The listed bridge is `cr` itself, or it references another DPUCluster.
abbrev pub Harmless : DpfHcpBridge → DpuCluster → DpfHcpBridge → Type 0
Harmless cr d b =
    ((b.meta.namespace ≡ cr.meta.namespace) × (b.meta.name ≡ cr.meta.name))
    ⊎ ((b.spec.dpu_cluster_ref.name ≢ d.meta.name)
        ⊎ (b.spec.dpu_cluster_ref.namespace ≢ d.meta.namespace))

-- No conflict is found exactly when every listed bridge is the bridge itself or references another
-- DPUCluster.
pub find_conflict-none_iff :
    (cr : DpfHcpBridge) (d : DpuCluster) (bs : List DpfHcpBridge)
    → (find_conflict cr d bs ≡ none) ↔ All (Harmless cr d) bs
unfolding find_conflict
find_conflict-none_iff cr d [] = (λ e. tt, λ a. refl)
find_conflict-none_iff cr d (b ∷ bs) = ground (
  arith,
  eq_iff b.meta.namespace cr.meta.namespace,
  eq_iff b.meta.name cr.meta.name,
  eq_iff b.spec.dpu_cluster_ref.name d.meta.name,
  eq_iff b.spec.dpu_cluster_ref.namespace d.meta.namespace,
  find_conflict-none_iff cr d bs,
)

pub find_conflict-eq_of_meta :
    (a b : DpfHcpBridge) (d : DpuCluster) (bs : List DpfHcpBridge)
    → a.meta ≡ b.meta
    → find_conflict a d bs ≡ find_conflict b d bs
unfolding find_conflict
find_conflict-eq_of_meta a b d [] e = refl
find_conflict-eq_of_meta a b d (x ∷ bs) e = ground (arith, find_conflict-eq_of_meta a b d bs e)
