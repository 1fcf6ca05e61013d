-- ===== src/Kubeconfig/Delivery/Reads.antt =====
-- The checks of the injection against the store.
use dpf_hcp_bridge_operator.Base.{
  and_true, ℕ, String, Bool, true, false, not, none, some, List, [], ◌∷◌, ◌≡◌, refl, ap, ◌∙◌, ◌==◌,
  nat_eq, arith,
}
use dpf_hcp_bridge_operator.Base.Result.{success}
use dpf_hcp_bridge_operator.Types.{DpfHcpBridge, DpuCluster, Secret}
use dpf_hcp_bridge_operator.Platform.{
  Client, Call, Trace, ok, err, pure, ◌>>=◌, call, on_reply, on_option,
}
use dpf_hcp_bridge_operator.Platform.Only.{Only, only_rules}
use dpf_hcp_bridge_operator.Platform.Server.{Store, Served, apply, replay}
use dpf_hcp_bridge_operator.Kubeconfig.Injector.{
  kubeconfig_secret_name, source_key, dest_key, cluster_key, bytes_equal, check_dpu_cluster,
  check_injection_state, detect_hc_kubeconfig_availability, check_drift, InjectionState,
}
use dpf_hcp_bridge_operator.Kubeconfig.Stored.{Holds}
use dpf_hcp_bridge_operator.Kubeconfig.Delivery.Steps.{quiet}

-- What the check of the state finds.
abbrev pub found : Bool → DpuCluster → DpfHcpBridge → InjectionState
found exists d b = record {
  secret_exists = exists;
  dpu_cluster_updated = d.kubeconfig == kubeconfig_secret_name b;
}

module _ (k : Client) where
  pub check_state-quiet : (b : DpfHcpBridge) → Only quiet (check_injection_state k b)
  unfolding check_injection_state check_dpu_cluster
  check_state-quiet b = search (only_rules) depth 14

  pub detect-quiet : (b : DpfHcpBridge) → Only quiet (detect_hc_kubeconfig_availability k b)
  unfolding detect_hc_kubeconfig_availability
  detect-quiet b = search (only_rules) depth 14

  pub drift-quiet : (b : DpfHcpBridge) (name : String) → Only quiet (check_drift k b name)
  unfolding check_drift
  drift-quiet b name = search (only_rules) depth 14

module _ (k : Client) (s0 : Store) (served : Served s0 k) where
  pub check_state-present :
      (b : DpfHcpBridge) (s : Secret) (d : DpuCluster) (h : Trace)
      → (replay s0 h).secrets (dest_key b (kubeconfig_secret_name b)) ≡ some s
      → (replay s0 h).clusters (cluster_key b) ≡ some d
      → (check_injection_state k b h).0 ≡ success (found true d b)
  unfolding check_injection_state check_dpu_cluster ◌>>=◌ call on_reply pure replay apply
  check_state-present b s d h dest cluster =
      let key = dest_key b (kubeconfig_secret_name b) in
      let got = served.get_secret-present h key s dest in
      let h1 : Trace = Call.get_secret key (ok s) ∷ h in
      let read = served.get_dpu_cluster-present h1 (cluster_key b) d cluster in
      rw got (rw read refl)

  pub check_state-absent :
      (b : DpfHcpBridge) (d : DpuCluster) (h : Trace)
      → (replay s0 h).secrets (dest_key b (kubeconfig_secret_name b)) ≡ none
      → (replay s0 h).clusters (cluster_key b) ≡ some d
      → (check_injection_state k b h).0 ≡ success (found false d b)
  unfolding check_injection_state check_dpu_cluster ◌>>=◌ call on_reply pure replay apply
  check_state-absent b d h dest cluster =
      let key = dest_key b (kubeconfig_secret_name b) in
      let (e, failed, missing) = served.get_secret-absent h key dest in
      let h1 : Trace = Call.get_secret key (err e) ∷ h in
      let read = served.get_dpu_cluster-present h1 (cluster_key b) d cluster in
      simp (failed, missing, read) refl

  pub detect-present :
      (b : DpfHcpBridge) (s : Secret) (h : Trace)
      → (replay s0 h).secrets (source_key b (kubeconfig_secret_name b)) ≡ some s
      → (detect_hc_kubeconfig_availability k b h).0 ≡ success (some (kubeconfig_secret_name b))
  unfolding detect_hc_kubeconfig_availability ◌>>=◌ call on_reply pure
  detect-present b s h source =
      rw (served.get_secret-present h (source_key b (kubeconfig_secret_name b)) s source) refl

  pub check_drift-Holds :
      (b : DpfHcpBridge) (name : String) (from to : List ℕ) (h : Trace)
      → Holds (replay s0 h) (source_key b name) from
      → Holds (replay s0 h) (dest_key b name) to
      → (check_drift k b name h).0 ≡ success (not (bytes_equal from to))
  unfolding check_drift ◌>>=◌ call on_reply on_option pure replay apply
  check_drift-Holds b name from to h source dest =
      let got = served.get_secret-present h (source_key b name) source.secret source.present in
      let h1 : Trace = Call.get_secret (source_key b name) (ok source.secret) ∷ h in
      let read = served.get_secret-present h1 (dest_key b name) dest.secret dest.present in
      simp (got, read, source.content, dest.content) refl

nat_eq_lem : (x y : ℕ) → nat_eq x y ≡ true → x ≡ y
nat_eq_lem x y e = ground (arith, e)

pub bytes_equal_lem : (xs ys : List ℕ) → bytes_equal xs ys ≡ true → xs ≡ ys
unfolding bytes_equal
bytes_equal_lem [] [] e = refl
bytes_equal_lem [] (y ∷ ys) e = absurd (cc e)
bytes_equal_lem (x ∷ xs) [] e = absurd (cc e)
bytes_equal_lem (x ∷ xs) (y ∷ ys) e =
    let (first, rest) = and_true _ _ e in
    let head = nat_eq_lem x y first in
    let tail = bytes_equal_lem xs ys rest in ap (λ z. z ∷ xs) head ∙ ap (λ zs. y ∷ zs) tail

pub bytes_equal_refl : (xs : List ℕ) → bytes_equal xs xs ≡ true
unfolding bytes_equal
bytes_equal_refl [] = refl
bytes_equal_refl (x ∷ xs) = ground (arith, bytes_equal_refl xs)
