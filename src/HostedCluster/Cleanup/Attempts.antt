-- ===== src/HostedCluster/Cleanup/Attempts.antt =====
-- The cleanup of the HostedCluster over several attempts.
use dpf_hcp_bridge_operator.Base.{
  String, true, false, none, some, List, [], ◌∷◌, ◌≡◌, refl, ◌⊎◌, inl, inr, is_some, Bool-cases,
  Option-cases,
}
use dpf_hcp_bridge_operator.Base.Result.{success, on_result}
use dpf_hcp_bridge_operator.Types.{
  DpfHcpBridge, HostedCluster, NodePool, NamespacedName, ObjectMeta, key_of,
}
use dpf_hcp_bridge_operator.Platform.{
  Client, Call, Trace, Reply, ok, pure, ◌>>=◌, call, on_reply, on_option,
}
use dpf_hcp_bridge_operator.Platform.Only.{Logged, Keeps, Keeps-refl}
use dpf_hcp_bridge_operator.HostedCluster.Cleanup.{
  delete_resource, delete_secret_by_name, delete_all, delete_secrets, cleanup_secrets,
  cleanup_node_pool, cleanup_hosted_cluster,
}
use dpf_hcp_bridge_operator.HostedCluster.Cleanup.Gone.{
  remove_hosted_cluster, remove_node_pool, remove_hosted_cluster-absent, remove_node_pool-absent,
}
use dpf_hcp_bridge_operator.HostedCluster.Cleanup.Remains.{
  Remains, Fetches, Answers, Marked, Settled,
}

-- An object that is there and not marked is deleted.
delete_resource-present :
    {A : Type 0} (fetch : Trace → Reply A) (fetched : Reply A → Call) (meta_of : A → ObjectMeta)
    (delete : Trace → Reply (Unit {0})) (deleted : Reply (Unit {0}) → Call) (kind : String)
    (h : Trace) (a : A)
    → fetch h ≡ ok a
    → is_some (meta_of a).deletion_timestamp ≡ false
    → ((t : Trace) → delete t ≡ ok tt)
    → delete_resource (call fetch fetched) meta_of (call delete deleted) kind h
      ≡ (success false, deleted (ok tt) ∷ fetched (ok a) ∷ h)
unfolding delete_resource ◌>>=◌ call on_reply pure
delete_resource-present fetch fetched meta_of delete deleted kind h a got unmarked accepted =
    simp (got, unmarked, accepted (fetched (ok a) ∷ h)) refl

module _ (k : Client) where
  remove_hosted_cluster-present :
      (cr : DpfHcpBridge) (h : Trace) (hc : HostedCluster)
      → k.get_hosted_cluster h (key_of cr.meta) ≡ ok hc
      → is_some hc.meta.deletion_timestamp ≡ false
      → ((t : Trace) → k.delete_hosted_cluster t (key_of cr.meta) ≡ ok tt)
      → remove_hosted_cluster k cr h ≡ (
        success false,
        Call.delete_hosted_cluster (key_of cr.meta) (ok tt)
            ∷ Call.get_hosted_cluster (key_of cr.meta) (ok hc)
            ∷ h,
      )
  remove_hosted_cluster-present cr h hc got unmarked accepted =
      delete_resource-present _ _ _ _ _ _ h hc got unmarked accepted

  remove_node_pool-present :
      (cr : DpfHcpBridge) (h : Trace) (np : NodePool)
      → k.get_node_pool h (key_of cr.meta) ≡ ok np
      → is_some np.meta.deletion_timestamp ≡ false
      → ((t : Trace) → k.delete_node_pool t (key_of cr.meta) ≡ ok tt)
      → remove_node_pool k cr h ≡ (
        success false,
        Call.delete_node_pool (key_of cr.meta) (ok tt)
            ∷ Call.get_node_pool (key_of cr.meta) (ok np)
            ∷ h,
      )
  remove_node_pool-present cr h np got unmarked accepted =
      delete_resource-present _ _ _ _ _ _ h np got unmarked accepted

-- A deletion in a trace stays in a longer one.
later : {P : Type 0} (c : Call) {t u : Trace} → Keeps t u → P ⊎ Logged c t → P ⊎ Logged c u
later c keeps (inl p) = inl p
later c keeps (inr l) = inr (keeps.call _ l)

module _ (cr : DpfHcpBridge) where
  delete_all-none :
      (st : Remains) (k : Client) (answers : Answers st (key_of cr.meta) k) (namespace : String)
      (names : List String) (h : Trace)
      → (delete_all k namespace names h).0 ≡ none
  unfolding delete_all delete_secret_by_name ◌>>=◌ call on_reply on_option pure
  delete_all-none st k answers namespace [] h = refl
  delete_all-none st k answers namespace (name ∷ rest) h =
      let key : NamespacedName = record { namespace = namespace; name = name } in
      elim (answers.secret h key) [
        | inl (s, got) ↦
            simp (got, answers.delete_secret (Call.get_secret key (ok s) ∷ h) key)
              (delete_all-none st k answers namespace rest _)
        | inr (e, failed, missing) ↦
            simp (failed, missing) (delete_all-none st k answers namespace rest _)
      ]

  cleanup_node_pool-none :
      (st : Remains) (k : Client)
      → Answers st (key_of cr.meta) k
      → st.node_pool ≡ none
      → (h : Trace) → (cleanup_node_pool k cr h).0 ≡ none
  unfolding cleanup_node_pool cleanup_secrets delete_secrets ◌>>=◌ on_result on_option pure call
  cleanup_node_pool-none st k answers absent h =
      let (e, failed, says) : Fetches none (k.get_node_pool h (key_of cr.meta)) =
        rw absent at answers.node_pool h in
      rw (remove_node_pool-absent k cr h e failed says)
        (rw (delete_all-none st k answers cr.meta.namespace _ _) refl)

  hosted_cluster-gone :
      (st : Remains) (k : Client)
      → Answers st (key_of cr.meta) k
      → st.hosted_cluster ≡ none
      → (h : Trace) → (remove_hosted_cluster k cr h).0 ≡ success true
  hosted_cluster-gone st k answers absent h =
      let (e, failed, says) : Fetches none (k.get_hosted_cluster h (key_of cr.meta)) =
        rw absent at answers.hosted_cluster h in
      remove_hosted_cluster-absent k cr h e failed says

  -- Nothing is left but secrets.
  pub cleanup-none :
      (st : Remains) (k : Client)
      → Answers st (key_of cr.meta) k
      → st.hosted_cluster ≡ none
      → st.node_pool ≡ none
      → (h : Trace) → (cleanup_hosted_cluster k cr h).0 ≡ none
  unfolding cleanup_hosted_cluster ◌>>=◌ on_result
  cleanup-none st k answers absent absent_too h =
      rw (hosted_cluster-gone st k answers absent h)
        (cleanup_node_pool-none st k answers absent_too _)

  -- A HostedCluster that is there is marked, or the attempt deletes it.
  attempt-hosted_cluster :
      (st : Remains) (k : Client) (hc : HostedCluster)
      → Answers st (key_of cr.meta) k
      → st.hosted_cluster ≡ some hc
      → (h : Trace)
      → Marked hc.meta
        ⊎ Logged
            (Call.delete_hosted_cluster (key_of cr.meta) (ok tt))
            (cleanup_hosted_cluster k cr h).1
  unfolding cleanup_hosted_cluster ◌>>=◌ on_result pure
  attempt-hosted_cluster st k hc answers present h =
      let got : Fetches (some hc) (k.get_hosted_cluster h (key_of cr.meta)) =
        rw present at answers.hosted_cluster h in
      elim (Bool-cases (is_some hc.meta.deletion_timestamp)) [
        | inl marked ↦ inl marked
        | inr unmarked ↦ inr (
            rw (remove_hosted_cluster-present k cr h hc got unmarked answers.delete_hosted_cluster)
              (inl refl))
      ]

  attempt-node_pool :
      (st : Remains) (k : Client) (np : NodePool)
      → Answers st (key_of cr.meta) k
      → st.hosted_cluster ≡ none
      → st.node_pool ≡ some np
      → (h : Trace)
      → Marked np.meta
        ⊎ Logged (Call.delete_node_pool (key_of cr.meta) (ok tt)) (cleanup_hosted_cluster k cr h).1
  unfolding cleanup_hosted_cluster cleanup_node_pool ◌>>=◌ on_result pure
  attempt-node_pool st k np answers absent present h =
      let t = (remove_hosted_cluster k cr h).1 in
      let got : Fetches (some np) (k.get_node_pool t (key_of cr.meta)) =
        rw present at answers.node_pool t in
      elim (Bool-cases (is_some np.meta.deletion_timestamp)) [
        | inl marked ↦ inl marked
        | inr unmarked ↦ inr (
            rw (hosted_cluster-gone st k answers absent h) (
              rw (remove_node_pool-present k cr t np got unmarked answers.delete_node_pool)
                (inl refl)))
      ]

  pub Settled-hosted_cluster :
      (st st' : Remains) (k : Client) (h t : Trace)
      → Answers st (key_of cr.meta) k
      → Keeps (cleanup_hosted_cluster k cr h).1 t
      → Settled (key_of cr.meta) st st' t
      → st'.hosted_cluster ≡ none
  Settled-hosted_cluster st st' k h t answers keeps settled =
      elim (Option-cases st.hosted_cluster) [
        | inl absent ↦ settled.hosted_cluster-absent absent
        | inr (hc, present) ↦
            settled.hosted_cluster-removed hc present
              (later _ keeps (attempt-hosted_cluster st k hc answers present h))
      ]

  pub Settled-node_pool :
      (st st' : Remains) (k : Client) (h t : Trace)
      → Answers st (key_of cr.meta) k
      → st.hosted_cluster ≡ none
      → Keeps (cleanup_hosted_cluster k cr h).1 t
      → Settled (key_of cr.meta) st st' t
      → st'.node_pool ≡ none
  Settled-node_pool st st' k h t answers gone keeps settled = elim (Option-cases st.node_pool) [
    | inl absent ↦ settled.node_pool-absent absent
    | inr (np, present) ↦
        settled.node_pool-removed np present
          (later _ keeps (attempt-node_pool st k np answers gone present h))
  ]

  -- Where the server answers from what remains and accepts each deletion, where it removes between
  -- two attempts what is marked or has been deleted, and where nobody creates the HostedCluster or the
  -- NodePool anew: the third attempt of the cleanup reports no error.
  pub cleanup_hosted_cluster_third :
      (st st' st'' : Remains) (k k' k'' : Client) (h h' h'' : Trace)
      → Answers st (key_of cr.meta) k
      → Settled (key_of cr.meta) st st' (cleanup_hosted_cluster k cr h).1
      → Answers st' (key_of cr.meta) k'
      → Settled (key_of cr.meta) st' st'' (cleanup_hosted_cluster k' cr h').1
      → Answers st'' (key_of cr.meta) k''
      → (cleanup_hosted_cluster k'' cr h'').0 ≡ none
  cleanup_hosted_cluster_third st st' st'' k k' k'' h h' h'' first settled second settled' third =
      let gone = Settled-hosted_cluster st st' k h _ first Keeps-refl settled in
      cleanup-none st'' k'' third (settled'.hosted_cluster-absent gone)
        (Settled-node_pool st' st'' k' h' _ second gone Keeps-refl settled') h''
