-- ===== src/HostedCluster/Lasting.antt =====
-- A server that keeps what it has, and the steps of internal/controller/hostedcluster against it when
-- they run again.
use dpf_hcp_bridge_operator.Base.{true, ◌≡◌, refl, sym, ◌∙◌, ◌∷◌, if◌then◌else◌}
use dpf_hcp_bridge_operator.Types.{
  DpfHcpBridge, ObjectMeta, Secret, HostedCluster, NodePool, NamespacedName, key_of,
}
use dpf_hcp_bridge_operator.Platform.{
  Client, Meta, Call, Trace, Action, ApiError, Reply, ok, ◌>>=◌, call, on_reply, pure,
}
use dpf_hcp_bridge_operator.Platform.Only.{Logged, Made}
use dpf_hcp_bridge_operator.HostedCluster.Held.{deletes, Stored, Held, kept, created}
use dpf_hcp_bridge_operator.HostedCluster.Creations.{storing}
use dpf_hcp_bridge_operator.HostedCluster.Copies.{HeldSecret}
use dpf_hcp_bridge_operator.HostedCluster.Established.{HeldHostedCluster}
use dpf_hcp_bridge_operator.HostedCluster.KeyAndPool.{HeldKey, HeldNodePool}
use dpf_hcp_bridge_operator.HostedCluster.SecretManager.{etcd_key_name}

-- `controllerutil.SetControllerReference` adds the owner as the controller that `metav1.IsControlledBy`
-- asks for, and leaves the name of the object.
pub record ControllerLaws (m : Meta) : Type 0 where
  pub controlled :
      (owner o o' : ObjectMeta)
      → m.set_controller_reference owner o ≡ ok o'
      → m.is_controlled_by o' owner ≡ true
  pub key :
      (owner o o' : ObjectMeta) → m.set_controller_reference owner o ≡ ok o' → key_of o' ≡ key_of o

-- The object is still there, and its controller is who it was.
abbrev pub Still :
    {A : Type 0} → Meta → DpfHcpBridge → (A → ObjectMeta) → Reply A → ObjectMeta → Type 0
Still {A} m cr meta_of reply meta =
    (o : A) × (reply ≡ ok o)
    × (m.is_controlled_by (meta_of o) cr.meta ≡ m.is_controlled_by meta cr.meta)

-- The operator has not deleted anything.
abbrev pub Undeleted : Trace → Type 0
Undeleted h = ¬ Made deletes h

-- What the server has given or stored it still has, unless the operator deletes it: nobody else deletes
-- it or gives it another controller.
pub record Lasting (m : Meta) (cr : DpfHcpBridge) (k : Client) : Type 0 where
  pub found_secret :
      (h : Trace) (key : NamespacedName) (s : Secret)
      → Undeleted h
      → Logged (Call.get_secret key (ok s)) h
      → Still m cr (λ (x : Secret). x.meta) (k.get_secret h key) s.meta
  pub stored_secret :
      (h : Trace) (s : Secret)
      → Undeleted h
      → Logged (Call.create_secret s (ok tt)) h
      → Still m cr (λ (x : Secret). x.meta) (k.get_secret h (key_of s.meta)) s.meta
  pub found_hosted_cluster :
      (h : Trace) (key : NamespacedName) (o : HostedCluster)
      → Undeleted h
      → Logged (Call.get_hosted_cluster key (ok o)) h
      → Still m cr (λ (x : HostedCluster). x.meta) (k.get_hosted_cluster h key) o.meta
  pub stored_hosted_cluster :
      (h : Trace) (o : HostedCluster)
      → Undeleted h
      → Logged (Call.create_hosted_cluster o (ok tt)) h
      → Still m cr (λ (x : HostedCluster). x.meta) (k.get_hosted_cluster h (key_of o.meta)) o.meta
  pub found_node_pool :
      (h : Trace) (key : NamespacedName) (o : NodePool)
      → Undeleted h
      → Logged (Call.get_node_pool key (ok o)) h
      → Still m cr (λ (x : NodePool). x.meta) (k.get_node_pool h key) o.meta
  pub stored_node_pool :
      (h : Trace) (o : NodePool)
      → Undeleted h
      → Logged (Call.create_node_pool o (ok tt)) h
      → Still m cr (λ (x : NodePool). x.meta) (k.get_node_pool h (key_of o.meta)) o.meta

-- The fetch gives an object that the bridge controls.
abbrev pub Controlled : {A : Type 0} → Meta → DpfHcpBridge → (A → ObjectMeta) → Reply A → Type 0
Controlled {A} m cr meta_of reply =
    (o : A) × (reply ≡ ok o) × (m.is_controlled_by (meta_of o) cr.meta ≡ true)

Still-Controlled :
    {A : Type 0} (m : Meta) (cr : DpfHcpBridge) (meta_of : A → ObjectMeta) (reply : Reply A)
    (meta : ObjectMeta)
    → m.is_controlled_by meta cr.meta ≡ true
    → Still m cr meta_of reply meta
    → Controlled m cr meta_of reply
Still-Controlled m cr meta_of reply meta owned (o, found, unchanged) = (o, found, unchanged ∙ owned)

-- A held object is found again.
Held-Controlled :
    {A : Type 0} (m : Meta) (cr : DpfHcpBridge) (meta_of : A → ObjectMeta)
    (fetched : Reply A → Call) (New : Trace → Type 0) (t : Trace) (reply : Reply A)
    → ((o : A) → Logged (fetched (ok o)) t → Still m cr meta_of reply (meta_of o))
    → (New t → Controlled m cr meta_of reply)
    → Held m cr meta_of fetched New t
    → Controlled m cr meta_of reply
Held-Controlled m cr meta_of fetched New t reply found stored (kept o) =
    Still-Controlled m cr meta_of reply _ o.controlled (found o.object o.found)
Held-Controlled m cr meta_of fetched New t reply found stored (created missing new) = stored new

-- A step whose object the bridge controls only fetches it.
pub again :
    {A B : Type 0} (m : Meta) (cr : DpfHcpBridge) (fetch : Trace → Reply A)
    (fetched : Reply A → Call) (meta_of : A → ObjectMeta) (a : B) (b : A → B) (c : ApiError → B)
    (create : Action B) (h : Trace) (o : A)
    → fetch h ≡ ok o
    → m.is_controlled_by (meta_of o) cr.meta ≡ true
    → (call fetch fetched >>= λ reply.
          on_reply reply
            (λ o. if m.is_controlled_by (meta_of o) cr.meta then pure a else pure (b o))
            (λ e. if e.is_not_found then create else pure (c e)))
        h
      ≡ (a, fetched (ok o) ∷ h)
unfolding ◌>>=◌ call on_reply pure
again m cr fetch fetched meta_of a b c create h o found owned = simp (found, owned) refl

module _ {m : Meta} {cr : DpfHcpBridge} {k : Client} (laws : ControllerLaws m)
    (lasting : Lasting m cr k) where
  stored_secret-Controlled :
      (s : Secret) (t : Trace)
      → Undeleted t
      → Stored m cr s.meta (storing s) t
      → Controlled m cr (λ (x : Secret). x.meta) (k.get_secret t (key_of s.meta))
  stored_secret-Controlled s t u stored = rw (sym (laws.key _ _ _ stored.controlled)) (
      Still-Controlled m cr _ _ stored.meta (laws.controlled _ _ _ stored.controlled)
        (lasting.stored_secret t (record s { meta = stored.meta }) u stored.made))

  pub secret_again :
      (s : Secret) (t : Trace)
      → Undeleted t
      → HeldSecret m cr s t
      → Controlled m cr (λ (x : Secret). x.meta) (k.get_secret t (key_of s.meta))
  secret_again s t u held =
      Held-Controlled m cr _ _ _ t _ (λ o l. lasting.found_secret t (key_of s.meta) o u l)
        (stored_secret-Controlled s t u) held

  pub key_again :
      (t : Trace)
      → Undeleted t
      → HeldKey m cr t
      → Controlled m cr
          (λ (x : Secret). x.meta)
          (k.get_secret t (record { namespace = cr.meta.namespace; name = etcd_key_name cr }))
  key_again t u held =
      Held-Controlled m cr _ _ _ t _ (λ o l. lasting.found_secret t _ o u l)
        (λ g. stored_secret-Controlled _ t u g.stored) held

  pub hosted_cluster_again :
      (t : Trace)
      → Undeleted t
      → HeldHostedCluster m cr t
      → Controlled m cr (λ (x : HostedCluster). x.meta) (k.get_hosted_cluster t (key_of cr.meta))
  hosted_cluster_again t u held =
      Held-Controlled m cr _ _ _ t _ (λ o l. lasting.found_hosted_cluster t _ o u l)
        (λ c. rw (sym (laws.key _ _ _ c.stored.controlled)) (
          Still-Controlled m cr _ _ c.stored.meta (laws.controlled _ _ _ c.stored.controlled)
            (lasting.stored_hosted_cluster t _ u c.stored.made)))
        held

  pub node_pool_again :
      (t : Trace)
      → Undeleted t
      → HeldNodePool m cr t
      → Controlled m cr (λ (x : NodePool). x.meta) (k.get_node_pool t (key_of cr.meta))
  node_pool_again t u held =
      Held-Controlled m cr _ _ _ t _ (λ o l. lasting.found_node_pool t _ o u l)
        (λ s. rw (sym (laws.key _ _ _ s.controlled)) (
          Still-Controlled m cr _ _ s.meta (laws.controlled _ _ _ s.controlled)
            (lasting.stored_node_pool t _ u s.made)))
        held
