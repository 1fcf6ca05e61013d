-- ===== src/Controller/Watches/Laws.antt =====
-- Which bridges the watches reconcile.
use dpf_hcp_bridge_operator.Base.{
  Bool, true, List, [], ◌∷◌, ◌≡◌, ◌↔◌, ◌⊎◌, inl, inr, arith, eq_iff, Bool-cases,
}
use dpf_hcp_bridge_operator.Types.{DpfHcpBridge, ObjectMeta, NamespacedName, key_of}
use dpf_hcp_bridge_operator.Platform.{Client, Trace, ok, pure, ◌>>=◌, call, on_reply}
use dpf_hcp_bridge_operator.Controller.Watches.{
  requests_for, references_cluster, dpu_cluster_to_requests,
}

-- The request is one of the list.
abbrev pub Asks : NamespacedName → List NamespacedName → Type 0
Asks q [] = ⊥
Asks q (x ∷ xs) = (x ≡ q) ⊎ Asks q xs

-- One of the bridges is the one of the request and fulfils the condition.
abbrev pub Some : (DpfHcpBridge → Type 0) → NamespacedName → List DpfHcpBridge → Type 0
Some P q [] = ⊥
Some P q (b ∷ bs) = (P b × (key_of b.meta ≡ q)) ⊎ Some P q bs

requests_for_iff :
    (test : DpfHcpBridge → Bool) (P : DpfHcpBridge → Type 0)
    → ((b : DpfHcpBridge) → (test b ≡ true) ↔ P b)
    → (q : NamespacedName) (bs : List DpfHcpBridge) → Asks q (requests_for test bs) ↔ Some P q bs
unfolding requests_for
requests_for_iff test P e q [] = (λ x. x, λ x. x)
requests_for_iff test P e q (b ∷ bs) =
    let ih = requests_for_iff test P e q bs in
    elim (Bool-cases (test b)) [
      | inl passes ↦ rw passes (
        (λ x. elim x [ inl y ↦ inl ((e b).0 passes, y) | inr y ↦ inr (ih.0 y) ]),
        (λ x. elim x [ inl y ↦ inl y.1 | inr y ↦ inr (ih.1 y) ]),
      )
      | inr fails ↦ rw fails (
        (λ x. inr (ih.0 x)),
        (λ x. elim x [ inl y ↦ absurd (cc ((e b).1 y.0, fails)) | inr y ↦ ih.1 y ]),
      )
    ]

-- The bridge references the secret: its SSH key or its pull secret has the name, in its namespace.
abbrev pub ReferencesSecret : ObjectMeta → DpfHcpBridge → Type 0
ReferencesSecret o b =
    ((b.spec.ssh_key_secret_ref ≡ o.name) ⊎ (b.spec.pull_secret_ref ≡ o.name))
    × (b.meta.namespace ≡ o.namespace)

abbrev pub ReferencesCluster : ObjectMeta → DpfHcpBridge → Type 0
ReferencesCluster o b =
    (b.spec.dpu_cluster_ref.name ≡ o.name) × (b.spec.dpu_cluster_ref.namespace ≡ o.namespace)

references_cluster_iff :
    (o : ObjectMeta) (b : DpfHcpBridge) → (references_cluster o b ≡ true) ↔ ReferencesCluster o b
references_cluster_iff o b = ground (
  arith,
  eq_iff b.spec.dpu_cluster_ref.name o.name,
  eq_iff b.spec.dpu_cluster_ref.namespace o.namespace,
)

module _ (k : Client) where
  -- Where the list of the bridges is answered: an event of a DPUCluster reconciles exactly the listed
  -- bridges that reference it by its name and its namespace.
  pub dpu_cluster_to_requests_exact :
      (o : ObjectMeta) (h : Trace) (bs : List DpfHcpBridge) (q : NamespacedName)
      → k.list_bridges h ≡ ok bs
      → Asks q (dpu_cluster_to_requests k o h).0 ↔ Some (ReferencesCluster o) q bs
  unfolding dpu_cluster_to_requests ◌>>=◌ call on_reply pure
  dpu_cluster_to_requests_exact o h bs q listed = rw listed (
      requests_for_iff (references_cluster o) (ReferencesCluster o) (references_cluster_iff o) q bs)
