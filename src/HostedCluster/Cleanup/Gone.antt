-- ===== src/HostedCluster/Cleanup/Gone.antt =====
-- What `deleteResource` has learnt when it reports a removal as complete.
use dpf_hcp_bridge_operator.Base.{
  String, Bool, true, ◌∷◌, ◌≡◌, refl, ◌⊎◌, inl, inr, is_some, Bool-cases, ◌||◌,
}
use dpf_hcp_bridge_operator.Base.Result.{Result, success}
use dpf_hcp_bridge_operator.Types.{DpfHcpBridge, ObjectMeta, NamespacedName, key_of}
use dpf_hcp_bridge_operator.Platform.{
  Client, Call, Trace, Action, Failure, ApiError, Reply, ok, err, Reply-cases, pure, ◌>>=◌, call,
  on_reply, get_node_pool, delete_node_pool, get_hosted_cluster, delete_hosted_cluster,
}
use dpf_hcp_bridge_operator.Platform.Only.{Logged}
use dpf_hcp_bridge_operator.HostedCluster.Cleanup.{delete_resource}

-- The API said that the object is not there: it, or its kind, was not found.
abbrev pub says_gone : ApiError → Bool
says_gone e = e.is_not_found || e.is_no_match

-- A removal is complete only when the fetch or the deletion says that the object is gone.
delete_resource-gone :
    {A : Type 0} (fetch : Trace → Reply A) (fetched : Reply A → Call) (meta_of : A → ObjectMeta)
    (delete : Trace → Reply (Unit {0})) (deleted : Reply (Unit {0}) → Call) (kind : String)
    (h : Trace)
    → let r = delete_resource (call fetch fetched) meta_of (call delete deleted) kind h in
      r.0 ≡ success true
      → (e : ApiError) × (says_gone e ≡ true)
        × (Logged (fetched (err e)) r.1 ⊎ Logged (deleted (err e)) r.1)
unfolding delete_resource ◌>>=◌ call on_reply pure
delete_resource-gone fetch fetched meta_of delete deleted kind h removed =
    elim (Reply-cases (fetch h)) [
      | inr (e, failed) ↦ elim (Bool-cases e.is_not_found) [
        | inl gone ↦ simp (failed, gone) (e, simp gone refl, inl (inl refl))
        | inr there ↦ elim (Bool-cases e.is_no_match) [
          | inl gone ↦ simp (failed, there, gone) (e, simp (there, gone) refl, inl (inl refl))
          | inr other ↦ cc (simp (failed, there, other) at removed)
        ]
      ]
      | inl (o, found) ↦ elim (Bool-cases (is_some (meta_of o).deletion_timestamp)) [
        | inl marked ↦ cc (simp (found, marked) at removed)
        | inr unmarked ↦ elim (Reply-cases (delete (fetched (ok o) ∷ h))) [
          | inl (u, sent) ↦ cc (simp (found, unmarked, sent) at removed)
          | inr (e, failed) ↦ elim (Bool-cases e.is_not_found) [
            | inl gone ↦ simp (found, unmarked, failed, gone) (e, simp gone refl, inr (inl refl))
            | inr other ↦ cc (simp (found, unmarked, failed, other) at removed)
          ]
        ]
      ]
    ]

-- The removal of an object that is not there is complete.
delete_resource-absent :
    {A : Type 0} (fetch : Trace → Reply A) (fetched : Reply A → Call) (meta_of : A → ObjectMeta)
    (delete : Trace → Reply (Unit {0})) (deleted : Reply (Unit {0}) → Call) (kind : String)
    (h : Trace) (e : ApiError)
    → fetch h ≡ err e
    → says_gone e ≡ true
    → (delete_resource (call fetch fetched) meta_of (call delete deleted) kind h).0 ≡ success true
unfolding delete_resource ◌>>=◌ call on_reply pure
delete_resource-absent fetch fetched meta_of delete deleted kind h e failed says =
    elim (Bool-cases e.is_not_found) [
      | inl gone ↦ simp (failed, gone) refl
      | inr other ↦ simp (failed, other, (simp other at says)) refl
    ]

-- The API said that the HostedCluster is gone.
abbrev pub HostedClusterGone : NamespacedName → Trace → Type 0
HostedClusterGone key t =
    (e : ApiError) × (says_gone e ≡ true)
    × (Logged (Call.get_hosted_cluster key (err e)) t
        ⊎ Logged (Call.delete_hosted_cluster key (err e)) t)

abbrev pub NodePoolGone : NamespacedName → Trace → Type 0
NodePoolGone key t =
    (e : ApiError) × (says_gone e ≡ true)
    × (Logged (Call.get_node_pool key (err e)) t ⊎ Logged (Call.delete_node_pool key (err e)) t)

module _ (k : Client) where
  abbrev pub remove_hosted_cluster : DpfHcpBridge → Action (Result Failure Bool)
  remove_hosted_cluster cr =
      delete_resource (get_hosted_cluster k (key_of cr.meta)) (λ o. o.meta)
        (delete_hosted_cluster k (key_of cr.meta)) "HostedCluster"

  abbrev pub remove_node_pool : DpfHcpBridge → Action (Result Failure Bool)
  remove_node_pool cr =
      delete_resource (get_node_pool k (key_of cr.meta)) (λ o. o.meta)
        (delete_node_pool k (key_of cr.meta)) "NodePool"

  pub remove_hosted_cluster-gone :
      (cr : DpfHcpBridge) (h : Trace)
      → (remove_hosted_cluster cr h).0 ≡ success true
      → HostedClusterGone (key_of cr.meta) (remove_hosted_cluster cr h).1
  remove_hosted_cluster-gone cr h removed = delete_resource-gone _ _ _ _ _ _ h removed

  pub remove_node_pool-gone :
      (cr : DpfHcpBridge) (h : Trace)
      → (remove_node_pool cr h).0 ≡ success true
      → NodePoolGone (key_of cr.meta) (remove_node_pool cr h).1
  remove_node_pool-gone cr h removed = delete_resource-gone _ _ _ _ _ _ h removed

  pub remove_hosted_cluster-absent :
      (cr : DpfHcpBridge) (h : Trace) (e : ApiError)
      → k.get_hosted_cluster h (key_of cr.meta) ≡ err e
      → says_gone e ≡ true
      → (remove_hosted_cluster cr h).0 ≡ success true
  remove_hosted_cluster-absent cr h e failed says =
      delete_resource-absent _ _ _ _ _ _ h e failed says

  pub remove_node_pool-absent :
      (cr : DpfHcpBridge) (h : Trace) (e : ApiError)
      → k.get_node_pool h (key_of cr.meta) ≡ err e
      → says_gone e ≡ true
      → (remove_node_pool cr h).0 ≡ success true
  remove_node_pool-absent cr h e failed says = delete_resource-absent _ _ _ _ _ _ h e failed says
