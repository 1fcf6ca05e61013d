-- ===== src/Kubeconfig/Cleanup/Removed.antt =====
-- What the cleanup of the kubeconfigs has done once it reports no error.
use dpf_hcp_bridge_operator.Base.{
  ℕ, suc, ◌+◌, ◌≤◌, true, none, List, [], ◌∷◌, ◌≡◌, refl, ◌⊎◌, inl, inr, arith, All, Bool-cases,
}
use dpf_hcp_bridge_operator.Base.Result.{Result, success, Result-cases, on_result}
use dpf_hcp_bridge_operator.Base.Text.{sprintf, decimal}
use dpf_hcp_bridge_operator.Types.{DpfHcpBridge, Secret, key_of}
use dpf_hcp_bridge_operator.Platform.{
  Client, Call, Trace, ApiError, Failure, normal, ok, err, Reply-cases, pure, ◌>>=◌, call, on_reply,
}
use dpf_hcp_bridge_operator.Platform.Only.{
  anything, Only, only_rules, Only-bind, Only-pure, Only-reply, Only-if, Logged, Only-Logged,
}
use dpf_hcp_bridge_operator.Kubeconfig.Cleanup.{
  owner_labels, delete_found, cleanup_listed, cleanup_kubeconfig,
}

abbrev size : List Secret → ℕ
size [] = 0
size (s ∷ rest) = suc (size rest)

-- The secret was deleted, or the API said that it is not there.
abbrev pub Removed : Trace → Secret → Type 0
Removed t s =
    Logged (Call.delete_secret (key_of s.meta) (ok tt)) t
    ⊎ ((e : ApiError) × (e.is_not_found ≡ true)
        × Logged (Call.delete_secret (key_of s.meta) (err e)) t)

-- All secrets of the list are removed, and at most as many are counted.
pub record AllRemoved (found : List Secret) (before after : ℕ) (t : Trace) : Type 0 where
  pub removed : All (Removed t) found
  pub least : before ≤ after
  pub most : after ≤ before + size found

success_apart : (a b : ℕ) (r : Result Failure ℕ) → r ≡ success a → r ≡ success b → a ≡ b
success_apart a b r e f = cc (e, f)

-- What a complete cleanup has done: it has listed the copies by the labels of the bridge, removed
-- them all, and told of at most as many, if there were any.
pub record Cleaned (cr : DpfHcpBridge) (t : Trace) : Type 0 where
  pub found : List Secret
  pub listed : Logged (Call.list_secrets (owner_labels cr) (ok found)) t
  pub removed : All (Removed t) found
  pub deleted_count : ℕ
  pub most : deleted_count ≤ size found
  pub told :
      (found ≡ [])
      ⊎ Logged
          (Call.event normal "KubeconfigCleanupSucceeded"
            (sprintf ("Deleted " ∷ decimal deleted_count ∷ " kubeconfig secret(s)" ∷ [])))
          t

Removed-later : (c : Call) (t : Trace) (s : Secret) → Removed t s → Removed (c ∷ t) s
Removed-later c t s (inl l) = inl (inr l)
Removed-later c t s (inr (e, gone, l)) = inr (e, gone, inr l)

All-Removed-later :
    (c : Call) (t : Trace) (found : List Secret)
    → All (Removed t) found
    → All (Removed (c ∷ t)) found
All-Removed-later c t [] all = tt
All-Removed-later c t (s ∷ rest) (first, all) =
    (Removed-later c t s first, All-Removed-later c t rest all)

module _ (k : Client) where
  delete_found-anything : (found : List Secret) (n : ℕ) → Only anything (delete_found k found n)
  unfolding delete_found
  delete_found-anything [] n = Only-pure _
  delete_found-anything (s ∷ rest) n = Only-bind _ _ (search (only_rules)) (λ r.
      Only-reply r _ _ (λ u. delete_found-anything rest _)
        (λ e. Only-if e.is_not_found _ _ (delete_found-anything rest _) (Only-pure _)))

  delete_found-AllRemoved :
      (found : List Secret) (before after : ℕ) (h : Trace)
      → (delete_found k found before h).0 ≡ success after
      → AllRemoved found before after (delete_found k found before h).1
  unfolding delete_found ◌>>=◌ call on_reply pure
  delete_found-AllRemoved [] before after h complete =
      let same = success_apart before after (success before) refl complete in
      record { removed = tt; least = omega (arith, same); most = omega (arith, same) }
  delete_found-AllRemoved (s ∷ rest) before after h complete =
      elim (Reply-cases (k.delete_secret h (key_of s.meta))) [
        | inl (u, sent) ↦
            let h' : Trace = Call.delete_secret (key_of s.meta) (ok tt) ∷ h in
            let ih = delete_found-AllRemoved rest (suc before) after h' (rw sent at complete) in
            rw sent (record {
              removed = (
                inl (Only-Logged _ h' (delete_found-anything rest (suc before)) (inl refl)),
                ih.removed,
              );
              least = omega (arith, ih.least);
              most = omega (arith, ih.most);
            })
        | inr (e, failed) ↦ elim (Bool-cases e.is_not_found) [
          | inr other ↦ cc (simp (failed, other) at complete)
          | inl gone ↦
              let h' : Trace = Call.delete_secret (key_of s.meta) (err e) ∷ h in
              let ih =
                delete_found-AllRemoved rest before after h' (simp (failed, gone) at complete) in
              simp (failed, gone)
                (record {
                  removed = (
                    inr (e, gone, Only-Logged _ h' (delete_found-anything rest before) (inl refl)),
                    ih.removed,
                  );
                  least = ih.least;
                  most = omega (arith, ih.most);
                })
        ]
      ]

  cleanup_listed-Cleaned :
      (cr : DpfHcpBridge) (s : Secret) (rest : List Secret) (h : Trace)
      → Logged (Call.list_secrets (owner_labels cr) (ok (s ∷ rest))) h
      → (cleanup_listed k (s ∷ rest) h).0 ≡ none
      → Cleaned cr (cleanup_listed k (s ∷ rest) h).1
  unfolding cleanup_listed ◌>>=◌ call pure on_result
  cleanup_listed-Cleaned cr s rest h listed complete =
      let t = (delete_found k (s ∷ rest) 0 h).1 in
      elim (Result-cases (delete_found k (s ∷ rest) 0 h).0) [
        | inr (x, failed) ↦ cc complete
        | inl (n, went) ↦
            let all = delete_found-AllRemoved (s ∷ rest) 0 n h went in
            rw went (record {
              found = s ∷ rest;
              listed = inr (Only-Logged _ h (delete_found-anything (s ∷ rest) 0) listed);
              removed = All-Removed-later _ t (s ∷ rest) all.removed;
              deleted_count = n;
              most = omega (arith, all.most);
              told = inr (inl refl);
            })
      ]

  listed-Cleaned :
      (cr : DpfHcpBridge) (found : List Secret) (h : Trace)
      → Logged (Call.list_secrets (owner_labels cr) (ok found)) h
      → (cleanup_listed k found h).0 ≡ none
      → Cleaned cr (cleanup_listed k found h).1
  unfolding cleanup_listed pure
  listed-Cleaned cr [] h listed complete = record {
    found = [];
    listed = listed;
    removed = tt;
    deleted_count = 0;
    most = omega arith;
    told = inl refl;
  }
  listed-Cleaned cr (s ∷ rest) h listed complete =
      cleanup_listed-Cleaned cr s rest h listed complete

  -- A cleanup of the kubeconfigs that reports no error has listed the secrets with the labels of the
  -- bridge, and for each of them the API said that it is deleted, or that it is not there; its event,
  -- where there were any, counts at most as many as were listed.
  pub cleanup_kubeconfig-Cleaned :
      (cr : DpfHcpBridge) (h : Trace)
      → (cleanup_kubeconfig k cr h).0 ≡ none
      → Cleaned cr (cleanup_kubeconfig k cr h).1
  unfolding cleanup_kubeconfig ◌>>=◌ call on_reply pure
  cleanup_kubeconfig-Cleaned cr h complete =
      elim (Reply-cases (k.list_secrets h (owner_labels cr))) [
        | inr (e, failed) ↦ cc (rw failed at complete)
        | inl (found, listed) ↦
            rw listed (listed-Cleaned cr found _ (inl refl) (rw listed at complete))
      ]
