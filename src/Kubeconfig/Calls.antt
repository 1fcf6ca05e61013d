-- ===== src/Kubeconfig/Calls.antt =====
-- The calls that the injection of the kubeconfig can make.
use dpf_hcp_bridge_operator.Base.{ℕ, Bool, true, List, String}
use dpf_hcp_bridge_operator.Types.{DpfHcpBridge, ConditionStatus}
use dpf_hcp_bridge_operator.Platform.{Client, Meta, Call, Failure}
use dpf_hcp_bridge_operator.Platform.Only.{Only, only_rules, Only-result}
use dpf_hcp_bridge_operator.Report.{emit_if}
use dpf_hcp_bridge_operator.Report.Laws.{reporting, set_condition-Only}
use dpf_hcp_bridge_operator.Kubeconfig.Injector.{
  set_injected, injection_failed, finish_with, injected, InjectionState, check_dpu_cluster,
  check_injection_state, detect_hc_kubeconfig_availability, check_drift,
  update_dpu_cluster_reference, update_kubeconfig_secret, create_or_update_kubeconfig_secret,
  handle_idempotency_scenarios, complete_injection, update_reference_step, write_secret_step,
  inject_available, inject_kubeconfig,
}

-- The calls of the injector: it reads and writes secrets and the DPUCluster, emits events and stores
-- the status.
abbrev pub injecting : Call → Bool
injecting (Call.get_secret key r) = true
injecting (Call.create_secret s r) = true
injecting (Call.update_secret s r) = true
injecting (Call.get_dpu_cluster key r) = true
injecting (Call.update_dpu_cluster d r) = true
injecting c = reporting c

module _ (m : Meta) (k : Client) where
  set_injected-Only :
      (status : ConditionStatus) (reason message : String) (cr : DpfHcpBridge)
      → Only injecting (set_injected m k status reason message cr)
  unfolding set_injected emit_if
  set_injected-Only status reason message cr = search (only_rules, set_condition-Only) depth 14

  injection_failed-Only :
      (text : String) (x : Failure) (cr : DpfHcpBridge)
      → Only injecting (injection_failed m k text x cr)
  unfolding injection_failed
  injection_failed-Only text x cr = search (only_rules, set_injected-Only)

  finish_with-Only :
      (status : ConditionStatus) (reason message : String) (cr : DpfHcpBridge)
      → Only injecting (finish_with m k status reason message cr)
  unfolding finish_with
  finish_with-Only status reason message cr = search (only_rules, set_injected-Only)

  injected-Only : (cr : DpfHcpBridge) → Only injecting (injected m k cr)
  unfolding injected
  injected-Only cr = search (finish_with-Only)

  check_state-Only : (cr : DpfHcpBridge) → Only injecting (check_injection_state k cr)
  unfolding check_injection_state check_dpu_cluster
  check_state-Only cr = search (only_rules) depth 14

  detect-Only : (cr : DpfHcpBridge) → Only injecting (detect_hc_kubeconfig_availability k cr)
  unfolding detect_hc_kubeconfig_availability
  detect-Only cr = search (only_rules) depth 14

  drift-Only : (cr : DpfHcpBridge) (name : String) → Only injecting (check_drift k cr name)
  unfolding check_drift
  drift-Only cr name = search (only_rules) depth 14

  reference-Only :
      (cr : DpfHcpBridge) (name : String) → Only injecting (update_dpu_cluster_reference k cr name)
  unfolding update_dpu_cluster_reference
  reference-Only cr name = search (only_rules) depth 14

  pub update_secret-Only :
      (cr : DpfHcpBridge) (name : String) (bytes : List ℕ)
      → Only injecting (update_kubeconfig_secret k cr name bytes)
  unfolding update_kubeconfig_secret
  update_secret-Only cr name bytes = search (only_rules) depth 14

  create_secret-Only :
      (cr : DpfHcpBridge) (name : String)
      → Only injecting (create_or_update_kubeconfig_secret k cr name)
  unfolding create_or_update_kubeconfig_secret
  create_secret-Only cr name = search (only_rules, update_secret-Only) depth 14

  scenarios-Only :
      (cr : DpfHcpBridge) (name : String) (s : InjectionState)
      → Only injecting (handle_idempotency_scenarios k cr name s)
  unfolding handle_idempotency_scenarios
  scenarios-Only cr name s = search (only_rules, Only-result, drift-Only, reference-Only) depth 16

  update_reference-Only :
      (name : String) (b : Bool) (cr : DpfHcpBridge)
      → Only injecting (update_reference_step m k name b cr)
  unfolding update_reference_step complete_injection
  update_reference-Only name b cr =
      search (only_rules, reference-Only, injection_failed-Only, injected-Only) depth 14

  write_secret-Only :
      (name : String) (b : Bool) (cr : DpfHcpBridge)
      → Only injecting (write_secret_step m k name b cr)
  unfolding write_secret_step
  write_secret-Only name b cr =
      search (only_rules, create_secret-Only, injection_failed-Only, update_reference-Only) depth 14

  available-Only :
      (s : InjectionState) (name : String) (cr : DpfHcpBridge)
      → Only injecting (inject_available m k s name cr)
  unfolding inject_available
  available-Only s name cr =
      search
        (
          only_rules, Only-result, scenarios-Only, injection_failed-Only, write_secret-Only,
          injected-Only,
        )
        depth 14

  -- An injection calls only to read and write secrets and the DPUCluster, to emit events, and to
  -- store the status of the bridge, whatever the answers are.
  pub inject_kubeconfig-Only : (cr : DpfHcpBridge) → Only injecting (inject_kubeconfig m k cr)
  unfolding inject_kubeconfig
  inject_kubeconfig-Only cr =
      search
        (
          only_rules, Only-result, check_state-Only, detect-Only, injection_failed-Only,
          finish_with-Only, available-Only,
        )
        depth 14
