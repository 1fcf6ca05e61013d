-- ===== src/HostedCluster/Again.antt =====
-- The steps of internal/controller/hostedcluster for a bridge that has its objects.
use dpf_hcp_bridge_operator.Base.{Bool, true, false, none, ◌≡◌, refl, ◌∙◌, String, ◌∷◌, arith}
use dpf_hcp_bridge_operator.Types.{
  DpfHcpBridge, Secret, SecretType, NamespacedName, docker_config_json, opaque, key_of,
}
use dpf_hcp_bridge_operator.Platform.{
  Client, Meta, Call, Trace, Action, ApiError, Failure, Reply, ok, ◌>>=◌, call, on_reply, on_option,
  pure, done, ◌and_then◌, Feature,
}
use dpf_hcp_bridge_operator.Platform.Only.{Grows, same, more, Grows-trans, Grows-Made, Grows-Keeps}
use dpf_hcp_bridge_operator.HostedCluster.Held.{deletes}
use dpf_hcp_bridge_operator.HostedCluster.Copies.{
  Copied, SecretsCopied, Copied-later, target_of, copying, ensuring,
}
use dpf_hcp_bridge_operator.HostedCluster.Established.{HeldHostedCluster}
use dpf_hcp_bridge_operator.HostedCluster.KeyAndPool.{HeldKey, HeldNodePool}
use dpf_hcp_bridge_operator.HostedCluster.Lasting.{
  ControllerLaws, Lasting, Undeleted, again, secret_again, key_again, hosted_cluster_again,
  node_pool_again,
}
use dpf_hcp_bridge_operator.HostedCluster.SecretManager.{
  copy_pull_secret, copy_ssh_key, copy_secrets, pull_secret_name, ssh_key_name,
  generate_etcd_encryption_key,
}
use dpf_hcp_bridge_operator.HostedCluster.Manager.{create_or_update_hosted_cluster}
use dpf_hcp_bridge_operator.HostedCluster.NodePools.{create_node_pool_once}

abbrev pub reading : Call → Bool
reading (Call.get_secret key r) = true
reading (Call.get_hosted_cluster key r) = true
reading (Call.get_node_pool key r) = true
reading _ = false

reading_keeps : (c : Call) → reading c ≡ true → deletes c ≡ false
reading_keeps c h = ground arith

pub reading-Undeleted : {h t : Trace} → Grows reading h t → Undeleted h → Undeleted t
reading-Undeleted g u made = u (Grows-Made reading_keeps g made)

-- The action has this result, and fetches only.
pub record Idle {A : Type 0} (a : A) (h : Trace) (r : A × Trace) : Type 0 where
  pub result : r.0 ≡ a
  pub reads : Grows reading h r.1

one_read :
    {A : Type 0} (a : A) (c : Call) (h : Trace) (r : A × Trace)
    → reading c ≡ true
    → r ≡ (a, c ∷ h)
    → Idle a h r
one_read a c h r is_read e = rw e (record { result = refl; reads = more c is_read same })

pub Idle-then :
    (f g : Feature) (cr : DpfHcpBridge) (h : Trace)
    → Idle (cr, done) h (f cr h)
    → Idle (cr, done) (f cr h).1 (g cr (f cr h).1)
    → Idle (cr, done) h ((f and_then g) cr h)
unfolding ◌and_then◌ ◌>>=◌ pure
Idle-then f g cr h first second =
    rw first.result
      (record { result = second.result; reads = Grows-trans first.reads second.reads })

fetched_step :
    {A B : Type 0} (fetch : Trace → Reply A) (fetched : Reply A → Call) (f : A → Action B)
    (g : ApiError → Action B) (h : Trace) (a : A)
    → fetch h ≡ ok a
    → (call fetch fetched >>= λ r. on_reply r f g) h ≡ f a (fetched (ok a) ∷ h)
unfolding ◌>>=◌ call on_reply
fetched_step fetch fetched f g h a found = rw found refl

module _ {m : Meta} {cr : DpfHcpBridge} {k : Client} (laws : ControllerLaws m)
    (lasting : Lasting m cr k) where
  ensuring-again :
      (what created : String) (s : Secret) (foreign : Secret → Failure)
      (broken : ApiError → Failure) (t : Trace) (o : Secret)
      → k.get_secret t (key_of s.meta) ≡ ok o
      → m.is_controlled_by o.meta cr.meta ≡ true
      → ensuring m k what created s cr foreign broken t
        ≡ (none, Call.get_secret (key_of s.meta) (ok o) ∷ t)
  ensuring-again what created s foreign broken t o found owned =
      again m cr _ _ (λ x. x.meta) none _ _ _ t o found owned

  copying-Idle :
      (what created source_name target_name : String) (kind : SecretType)
      (foreign : Secret → Failure) (broken unread : ApiError → Failure) (h : Trace)
      → Undeleted h
      → Copied m cr source_name target_name kind h
      → Idle none h (
          copying m k what created
            (record { namespace = cr.meta.namespace; name = source_name })
            (target_of target_name kind cr)
            cr
            foreign
            broken
            unread
            h)
  copying-Idle what created source_name target_name kind foreign broken unread h u copied =
      let key : NamespacedName = record { namespace = cr.meta.namespace; name = source_name } in
      let (source, found, unchanged) = lasting.found_secret h key copied.source u copied.read in
      let c = Call.get_secret key (ok source) in
      let grown : Grows reading h (c ∷ h) = more c refl same in
      let (o, there, owned) =
        secret_again laws lasting _ (c ∷ h) (reading-Undeleted grown u)
          (Copied-later (Grows-Keeps grown) copied).held in
      let s = target_of target_name kind cr source in
      let step : copying m k what created key (target_of target_name kind cr) cr foreign broken
            unread h
          ≡ ensuring m k what created s cr foreign broken (c ∷ h) =
        fetched_step _ _ _ _ h source found in
      let then_found = ensuring-again what created s foreign broken (c ∷ h) o there owned in
      rw (step ∙ then_found)
        (record { result = refl; reads = more (Call.get_secret (key_of s.meta) (ok o)) refl grown })

  copy_pull_secret-Idle :
      (target_name : String) (h : Trace)
      → Undeleted h
      → Copied m cr cr.spec.pull_secret_ref target_name docker_config_json h
      → Idle none h (copy_pull_secret m k target_name cr h)
  unfolding copy_pull_secret
  copy_pull_secret-Idle target_name h u copied =
      copying-Idle "pull-secret" "pull-secret" _ target_name docker_config_json _ _ _ h u copied

  copy_ssh_key-Idle :
      (target_name : String) (h : Trace)
      → Undeleted h
      → Copied m cr cr.spec.ssh_key_secret_ref target_name opaque h
      → Idle none h (copy_ssh_key m k target_name cr h)
  unfolding copy_ssh_key
  copy_ssh_key-Idle target_name h u copied =
      copying-Idle "ssh-key" "ssh-key" _ target_name opaque _ _ _ h u copied

  pub copy_secrets-Idle :
      (h : Trace) → Undeleted h → SecretsCopied m cr h → Idle (cr, done) h (copy_secrets m k cr h)
  unfolding copy_secrets ◌>>=◌ on_option pure
  copy_secrets-Idle h u (pull, ssh) =
      let first = copy_pull_secret-Idle (pull_secret_name cr) h u pull in
      let second =
        copy_ssh_key-Idle (ssh_key_name cr) _ (reading-Undeleted first.reads u)
          (Copied-later (Grows-Keeps first.reads) ssh) in
      rw first.result
        (rw second.result (record { result = refl; reads = Grows-trans first.reads second.reads }))

  pub key-Idle :
      (h : Trace)
      → Undeleted h
      → HeldKey m cr h
      → Idle (cr, done) h (generate_etcd_encryption_key m k cr h)
  unfolding generate_etcd_encryption_key
  key-Idle h u held =
      let (o, there, owned) = key_again laws lasting h u held in
      one_read _ _ h _ refl (again m cr _ _ (λ x. x.meta) (cr, done) _ _ _ h o there owned)

  pub hosted_cluster-Idle :
      (h : Trace)
      → Undeleted h
      → HeldHostedCluster m cr h
      → Idle (cr, done) h (create_or_update_hosted_cluster m k cr h)
  unfolding create_or_update_hosted_cluster
  hosted_cluster-Idle h u held =
      let (o, there, owned) = hosted_cluster_again laws lasting h u held in
      one_read _ _ h _ refl (again m cr _ _ (λ x. x.meta) (cr, done) _ _ _ h o there owned)

  pub node_pool-Idle :
      (h : Trace)
      → Undeleted h
      → HeldNodePool m cr h
      → Idle (cr, done) h (create_node_pool_once m k cr h)
  unfolding create_node_pool_once
  node_pool-Idle h u held =
      let (o, there, owned) = node_pool_again laws lasting h u held in
      one_read _ _ h _ refl (again m cr _ _ (λ x. x.meta) (cr, done) _ _ _ h o there owned)
