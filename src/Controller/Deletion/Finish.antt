-- ===== src/Controller/Deletion/Finish.antt =====
-- When `handleDeletion` removes the finalizer.
use dpf_hcp_bridge_operator.Base.{
  Bool, true, false, ◌∷◌, ◌≡◌, refl, arith, ◌⊎◌, inl, inr, Bool-cases,
}
use dpf_hcp_bridge_operator.Types.{DpfHcpBridge, key_of}
use dpf_hcp_bridge_operator.Platform.{
  Client, Meta, Call, Trace, ok, Reply-cases, stops, pure, ◌>>=◌, call, on_reply,
}
use dpf_hcp_bridge_operator.Platform.Only.{Only, only_rules, Made, Only-Made, Made-earlier}
use dpf_hcp_bridge_operator.Report.Laws.{StatusEcho}
use dpf_hcp_bridge_operator.Finalizer.{handle_finalizer_cleanup, register_handler}
use dpf_hcp_bridge_operator.Finalizer.Laws.{
  AllClean, cleaned, handle_finalizer_cleanup_exact, handle_finalizer_cleanup-trace,
}
use dpf_hcp_bridge_operator.HostedCluster.Cleanup.Gone.{HostedClusterGone, NodePoolGone}
use dpf_hcp_bridge_operator.HostedCluster.Cleanup.Order.{
  cleanup_hosted_cluster_complete, HostedClusterGone-later, NodePoolGone-later,
}
use dpf_hcp_bridge_operator.Kubeconfig.Cleanup.{cleanup_kubeconfig}
use dpf_hcp_bridge_operator.Controller.Deletion.{
  finalizer_name, registered_handlers, remove_finalizer_step, run_cleanup, handle_deletion,
}
use dpf_hcp_bridge_operator.Controller.Deletion.Laws.{cleaning, deleting, cleanup-Only}

abbrev pub updates_bridge : Call → Bool
updates_bridge (Call.update_bridge b r) = true
updates_bridge _ = false

cleaning_apart : (c : Call) → cleaning c ≡ true → updates_bridge c ≡ false
cleaning_apart c h = ground arith

-- Both objects of the bridge are gone.
abbrev pub AllGone : DpfHcpBridge → Trace → Type 0
AllGone cr t = HostedClusterGone (key_of cr.meta) t × NodePoolGone (key_of cr.meta) t

AllGone-step : (cr : DpfHcpBridge) (c : Call) (t : Trace) → AllGone cr t → AllGone cr (c ∷ t)
AllGone-step cr c t ((e, a, l), (f, b, r)) = (
  (e, a, elim l [ inl x ↦ inl (inr x) | inr x ↦ inr (inr x) ]),
  (f, b, elim r [ inl x ↦ inl (inr x) | inr x ↦ inr (inr x) ]),
)

same_key : {a b : DpfHcpBridge} (t : Trace) → a ≡ b → AllGone a t → AllGone b t
same_key t e g = rw e at g

module _ (m : Meta) (k : Client) where
  cleaned-AllGone :
      (cr : DpfHcpBridge) (h : Trace)
      → AllClean (registered_handlers k) cr h
      → AllGone cr (cleaned (registered_handlers k) cr h)
  unfolding registered_handlers register_handler
  cleaned-AllGone cr h all =
      cleanup_hosted_cluster_complete k cr (cleanup_kubeconfig k cr h).1 all.1.0

  manager-AllGone :
      (cr : DpfHcpBridge) (h : Trace)
      → stops (handle_finalizer_cleanup (registered_handlers k) cr h).0 ≡ false
      → AllGone cr (handle_finalizer_cleanup (registered_handlers k) cr h).1
  manager-AllGone cr h on =
      let all = (handle_finalizer_cleanup_exact (registered_handlers k) cr h).0 on in
      rw (handle_finalizer_cleanup-trace (registered_handlers k) cr h all)
        (AllGone-step cr _ _ (cleaned-AllGone cr h all))

  finish-Only :
      (cr : DpfHcpBridge) → Only deleting (remove_finalizer_step m k (registered_handlers k) cr)
  unfolding remove_finalizer_step
  finish-Only cr = search (only_rules)

  run_cleanup-AllGone :
      (cr : DpfHcpBridge) (h : Trace)
      → Made updates_bridge (run_cleanup m k (registered_handlers k) cr h).1
      → Made updates_bridge h ⊎ AllGone cr (run_cleanup m k (registered_handlers k) cr h).1
  unfolding run_cleanup ◌>>=◌ pure
  run_cleanup-AllGone cr h made =
      elim (Bool-cases (stops (handle_finalizer_cleanup (registered_handlers k) cr h).0)) [
        | inl stopped ↦ inl (Only-Made cleaning_apart h (cleanup-Only k cr) (rw stopped at made))
        | inr on ↦ inr (
            rw on (
              let g = manager-AllGone cr h on in
              let t = (handle_finalizer_cleanup (registered_handlers k) cr h).1 in
              let o = finish-Only cr in
              (HostedClusterGone-later _ t o g.0, NodePoolGone-later _ t o g.1)))
      ]

  -- Where the server stores the status that it is sent: the deletion of a bridge, with the handlers
  -- that the program registers, writes the bridge without its finalizer only after the API said that
  -- the HostedCluster and the NodePool of the bridge's name are gone.
  pub finalizer_removed_after_cleanup :
      StatusEcho k
      → (cr : DpfHcpBridge) (h : Trace)
      → Made updates_bridge (handle_deletion m k (registered_handlers k) cr h).1
      → Made updates_bridge h ⊎ AllGone cr (handle_deletion m k (registered_handlers k) cr h).1
  unfolding handle_deletion ◌>>=◌ call on_reply pure
  finalizer_removed_after_cleanup e cr h made = elim (Reply-cases (k.update_bridge_status h cr)) [
    | inr (x, failed) ↦ inl (Made-earlier _ h refl (rw failed at made))
    | inl (stored, answer) ↦
        let echo = e.echo h cr stored answer in
        elim (Bool-cases (m.contains_finalizer stored.meta finalizer_name)) [
          | inr absent ↦ inl (Made-earlier _ h refl (simp (answer, absent) at made))
          | inl present ↦
              elim (run_cleanup-AllGone stored (Call.update_bridge_status cr (ok stored) ∷ h)
                (simp (answer, present) at made)) [
                  | inl before ↦ inl (Made-earlier _ h refl before)
                  | inr gone ↦ inr (simp (answer, present) (same_key _ echo gone))
                ]
        ]
  ]
