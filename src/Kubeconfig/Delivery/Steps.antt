-- ===== src/Kubeconfig/Delivery/Steps.antt =====
-- The steps of the injection after its checks, by the store that they leave.
use dpf_hcp_bridge_operator.Base.{ℕ, String, Bool, true, false, List, ◌≡◌, refl, ap, ◌∙◌}
use dpf_hcp_bridge_operator.Types.{DpfHcpBridge, ConditionStatus, NamespacedName}
use dpf_hcp_bridge_operator.Platform.{
  Client, Meta, Call, Trace, Action, Failure, ◌>>=◌, call, on_option,
}
use dpf_hcp_bridge_operator.Platform.Only.{Grows, same, more, Only, only_rules}
use dpf_hcp_bridge_operator.Platform.Server.{Store, Served, Keyed, apply, replay}
use dpf_hcp_bridge_operator.Report.{emit_if}
use dpf_hcp_bridge_operator.Report.Laws.{set_condition-Only}
use dpf_hcp_bridge_operator.Kubeconfig.Injector.{
  source_key, dest_key, cluster_key, set_injected, injection_failed, finish_with, injected,
  complete_injection, update_reference_step, write_secret_step,
}
use dpf_hcp_bridge_operator.Kubeconfig.Stored.{
  Holds, Names, Present, reference-Names, kubeconfig-Holds,
}

-- The calls that write no secret and no DPUCluster.
abbrev pub quiet : Call → Bool
quiet (Call.create_secret s r) = false
quiet (Call.update_secret s r) = false
quiet (Call.delete_secret key r) = false
quiet (Call.update_dpu_cluster d r) = false
quiet c = true

apply-quiet : (c : Call) (st : Store) → quiet c ≡ true → apply c st ≡ st
unfolding apply
apply-quiet (Call.create_secret s r) st e = absurd (cc e)
apply-quiet (Call.update_secret s r) st e = absurd (cc e)
apply-quiet (Call.delete_secret key r) st e = absurd (cc e)
apply-quiet (Call.update_dpu_cluster d r) st e = absurd (cc e)
apply-quiet _ st e = refl

pub replay-quiet : (s0 : Store) (h t : Trace) → Grows quiet h t → replay s0 t ≡ replay s0 h
unfolding replay
replay-quiet s0 h _ same = refl
replay-quiet s0 h _ (more c a g) = apply-quiet c _ a ∙ replay-quiet s0 h _ g

-- Such calls leave the store as it is.
pub after-quiet :
    {A : Type 0} (s0 : Store) (n : Action A) (h : Trace)
    → Only quiet n
    → replay s0 (n h).1 ≡ replay s0 h
after-quiet s0 n h o = replay-quiet s0 h _ (o.at h)

module _ (m : Meta) (k : Client) where
  set_injected-quiet :
      (status : ConditionStatus) (reason message : String) (b : DpfHcpBridge)
      → Only quiet (set_injected m k status reason message b)
  unfolding set_injected emit_if
  set_injected-quiet status reason message b = search (only_rules, set_condition-Only) depth 14

  pub injected-quiet : (b : DpfHcpBridge) → Only quiet (injected m k b)
  unfolding injected finish_with
  injected-quiet b = search (only_rules, set_injected-quiet) depth 14

  pub injection_failed-quiet :
      (text : String) (x : Failure) (b : DpfHcpBridge) → Only quiet (injection_failed m k text x b)
  unfolding injection_failed
  injection_failed-quiet text x b = search (only_rules, set_injected-quiet)

  complete-quiet : (name : String) (b : DpfHcpBridge) → Only quiet (complete_injection m k name b)
  unfolding complete_injection
  complete-quiet name b = search (only_rules, injected-quiet)

-- The DPUCluster names the secret, and the secrets are as before.
pub record Referenced (before after : Store) (b : DpfHcpBridge) (name : String) : Type 0 where
  pub reference : Names after (cluster_key b) name
  pub secrets : after.secrets ≡ before.secrets

module _ (m : Meta) (k : Client) (s0 : Store) (served : Served s0 k) (keyed : Keyed s0) where
  reference_step-Referenced :
      (name : String) (updated : Bool) (b : DpfHcpBridge) (h : Trace)
      → Present (replay s0 h) (cluster_key b)
      → (updated ≡ true → Names (replay s0 h) (cluster_key b) name)
      → Referenced (replay s0 h) (replay s0 (update_reference_step m k name updated b h).1) b name
  unfolding update_reference_step ◌>>=◌ call on_option replay apply
  reference_step-Referenced name true b h present named =
      rw (after-quiet s0 (complete_injection m k name b) h (complete-quiet m k name b))
        (record { reference = named refl; secrets = refl })
  reference_step-Referenced name false b h present named =
      let (complete, reference, secrets) = reference-Names k s0 served keyed b name h present in
      rw complete (
        rw (after-quiet s0 (complete_injection m k name b) _ (complete-quiet m k name b))
          (record { reference = reference; secrets = secrets }))

-- The copy holds the bytes of the source, and the DPUCluster names it.
pub record Delivered (st : Store) (b : DpfHcpBridge) (name : String) (bytes : List ℕ) : Type 0 where
  pub source : Holds st (source_key b name) bytes
  pub copy : Holds st (dest_key b name) bytes
  pub reference : Names st (cluster_key b) name

-- The same secrets hold the same.
pub Holds-secrets :
    {before after : Store} (key : NamespacedName) (bytes : List ℕ)
    → after.secrets ≡ before.secrets
    → Holds before key bytes
    → Holds after key bytes
Holds-secrets key bytes secrets held = record {
  secret = held.secret;
  present = ap (λ f. f key) secrets ∙ held.present;
  content = held.content;
}

Names-clusters :
    {before after : Store} (key : NamespacedName) (name : String)
    → after.clusters ≡ before.clusters
    → Names before key name
    → Names after key name
Names-clusters key name clusters named = record {
  cluster = named.cluster;
  present = ap (λ f. f key) clusters ∙ named.present;
  reference = named.reference;
}

module _ (m : Meta) (k : Client) (s0 : Store) (served : Served s0 k) (keyed : Keyed s0) where
  -- Where the secret is written at all, the kubeconfig is delivered.
  pub write_secret_step-Delivered :
      (name : String) (updated : Bool) (b : DpfHcpBridge) (bytes : List ℕ) (h : Trace)
      → Holds (replay s0 h) (source_key b name) bytes
      → Present (replay s0 h) (cluster_key b)
      → (updated ≡ true → Names (replay s0 h) (cluster_key b) name)
      → Delivered (replay s0 (write_secret_step m k name updated b h).1) b name bytes
  unfolding write_secret_step ◌>>=◌ call on_option replay apply
  write_secret_step-Delivered name updated b bytes h source (d, present) named =
      let (complete, copied) = kubeconfig-Holds k s0 served keyed b name bytes h source in
      let clusters = copied.clusters in
      let referenced =
        reference_step-Referenced m k s0 served keyed name updated b _
          (d, ap (λ f. f (cluster_key b)) clusters ∙ present)
          (λ e. Names-clusters (cluster_key b) name clusters (named e)) in
      rw complete (record {
        source =
            Holds-secrets (source_key b name) bytes referenced.secrets
              (copied.kept (source_key b name) source);
        copy = Holds-secrets (dest_key b name) bytes referenced.secrets copied.copy;
        reference = referenced.reference;
      })
