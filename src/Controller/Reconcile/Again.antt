-- ===== src/Controller/Reconcile/Again.antt =====
-- The provisioning of a Pending bridge that was provisioned before.
use dpf_hcp_bridge_operator.Base.{true, false, ◌≡◌, arith}
use dpf_hcp_bridge_operator.Types.{DpfHcpBridge}
use dpf_hcp_bridge_operator.Platform.{Client, Meta, Trace, Call, stops, done}
use dpf_hcp_bridge_operator.Platform.Only.{Only-Made, Grows-Keeps}
use dpf_hcp_bridge_operator.HostedCluster.Held.{deletes, keeping}
use dpf_hcp_bridge_operator.HostedCluster.Lasting.{ControllerLaws, Lasting, Undeleted}
use dpf_hcp_bridge_operator.HostedCluster.Again.{
  Idle, Idle-then, reading-Undeleted, copy_secrets-Idle, key-Idle, hosted_cluster-Idle,
  node_pool-Idle,
}
use dpf_hcp_bridge_operator.Controller.Reconcile.{
  is_pending, secrets_feature, creation_feature, provisioning_features,
}
use dpf_hcp_bridge_operator.Controller.Reconcile.Established.{
  Established, Established-later, provisioning-keeping, provisioning_features-Established,
}

keeps_objects : (c : Call) → keeping c ≡ true → deletes c ≡ false
keeps_objects c h = ground arith

module _ {m : Meta} {cr : DpfHcpBridge} {k : Client} (laws : ControllerLaws m)
    (lasting : Lasting m cr k) (pending : is_pending cr.status.phase ≡ true) where
  secrets_feature-Idle :
      (h : Trace) → Undeleted h → Established m cr h → Idle (cr, done) h (secrets_feature m k cr h)
  unfolding secrets_feature
  secrets_feature-Idle h u s =
      let first = copy_secrets-Idle laws lasting h u s.secrets in
      rw pending (
        Idle-then _ _ cr h first (
          key-Idle laws lasting _ (reading-Undeleted first.reads u)
            (Established-later (Grows-Keeps first.reads) s).key))

  creation_feature-Idle :
      (h : Trace) → Undeleted h → Established m cr h → Idle (cr, done) h (creation_feature m k cr h)
  unfolding creation_feature
  creation_feature-Idle h u s =
      let first = hosted_cluster-Idle laws lasting h u s.hosted_cluster in
      rw pending (
        Idle-then _ _ cr h first (
          node_pool-Idle laws lasting _ (reading-Undeleted first.reads u)
            (Established-later (Grows-Keeps first.reads) s).node_pool))

  provisioning_features-Idle :
      (h : Trace)
      → Undeleted h
      → Established m cr h
      → Idle (cr, done) h (provisioning_features m k cr h)
  unfolding provisioning_features
  provisioning_features-Idle h u s =
      let first = secrets_feature-Idle h u s in
      Idle-then _ _ cr h first (
        creation_feature-Idle _ (reading-Undeleted first.reads u)
          (Established-later (Grows-Keeps first.reads) s))

  -- Where the library sets the controller that it asks for, and the server keeps what it has given or
  -- stored unless the operator deletes it: after a provisioning of a Pending bridge that went on, before
  -- which the operator deleted nothing, another one goes on with the same bridge and only fetches secrets, the HostedCluster and
  -- the NodePool, so it creates nothing.
  pub provisioning_features_twice :
      (h : Trace)
      → Undeleted h
      → stops (provisioning_features m k cr h).0.1 ≡ false
      → let t = (provisioning_features m k cr h).1 in
        Idle (cr, done) t (provisioning_features m k cr t)
  provisioning_features_twice h u goes_on =
      provisioning_features-Idle _
        (λ made. u (Only-Made keeps_objects h (provisioning-keeping m k cr) made))
        (provisioning_features-Established m k cr h pending goes_on)
