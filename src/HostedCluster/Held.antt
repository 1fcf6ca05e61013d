-- ===== src/HostedCluster/Held.antt =====
-- The pattern of internal/controller/hostedcluster by which each object of a bridge is fetched, kept if
-- the bridge controls it, and created if it is not there.
use dpf_hcp_bridge_operator.Base.{
  Bool, true, false, not, ◌∷◌, ◌≡◌, refl, inl, inr, Bool-cases, if◌then◌else◌,
}
use dpf_hcp_bridge_operator.Types.{DpfHcpBridge, ObjectMeta}
use dpf_hcp_bridge_operator.Platform.{
  Meta, Call, Trace, Action, ApiError, Reply, ok, err, Reply-cases, ◌>>=◌, call, on_reply, pure,
}
use dpf_hcp_bridge_operator.Platform.Only.{Only, Only-Logged, Logged, Keeps}

abbrev pub deletes : Call → Bool
deletes (Call.delete_secret key r) = true
deletes (Call.delete_hosted_cluster key r) = true
deletes (Call.delete_node_pool key r) = true
deletes _ = false

-- The creation of the objects deletes nothing.
abbrev pub keeping : Call → Bool
keeping c = not (deletes c)

-- The object was found, and the bridge controls it.
pub record Owned {A : Type 0} (m : Meta) (cr : DpfHcpBridge) (meta_of : A → ObjectMeta)
    (fetched : Reply A → Call) (t : Trace) : Type 0 where
  pub object : A
  pub controlled : m.is_controlled_by (meta_of object) cr.meta ≡ true
  pub found : Logged (fetched (ok object)) t

-- The API said that there is no such object.
pub record Missing {A : Type 0} (fetched : Reply A → Call) (t : Trace) : Type 0 where
  pub error : ApiError
  pub gone : error.is_not_found ≡ true
  pub said : Logged (fetched (err error)) t

-- The API stored the object with the metadata `wanted`, to which the library added the bridge as its
-- controller.
pub record Stored (m : Meta) (cr : DpfHcpBridge) (wanted : ObjectMeta)
    (created : ObjectMeta → Reply (Unit {0}) → Call) (t : Trace) : Type 0 where
  pub meta : ObjectMeta
  pub controlled : m.set_controller_reference cr.meta wanted ≡ ok meta
  pub made : Logged (created meta (ok tt)) t

-- The bridge has the object: it was found under the control of the bridge, or it was missing and is
-- new now.
pub data Held {A : Type 0} (m : Meta) (cr : DpfHcpBridge) (meta_of : A → ObjectMeta)
    (fetched : Reply A → Call) (New : Trace → Type 0) (t : Trace) : Type 0 where
  kept : Owned m cr meta_of fetched t → Held m cr meta_of fetched New t
  created : Missing fetched t → New t → Held m cr meta_of fetched New t

pub Stored-later :
    {m : Meta} {cr : DpfHcpBridge} {wanted : ObjectMeta}
    {created : ObjectMeta → Reply (Unit {0}) → Call} {t u : Trace}
    → Keeps t u
    → Stored m cr wanted created t
    → Stored m cr wanted created u
Stored-later keeps s = record {
  meta = s.meta;
  controlled = s.controlled;
  made = keeps.call _ s.made;
}

pub Held-later :
    {A : Type 0} {m : Meta} {cr : DpfHcpBridge} {meta_of : A → ObjectMeta}
    {fetched : Reply A → Call} {New : Trace → Type 0} {t u : Trace}
    → Keeps t u
    → (New t → New u)
    → Held m cr meta_of fetched New t
    → Held m cr meta_of fetched New u
Held-later keeps later (kept o) =
    kept (record { object = o.object; controlled = o.controlled; found = keeps.call _ o.found })
Held-later keeps later (created n s) =
    created (record { error = n.error; gone = n.gone; said = keeps.call _ n.said }) (later s)

module _ {B : Type 0} (m : Meta) (cr : DpfHcpBridge) (stopped : B → Bool) where
  -- The creation goes on only once the API has stored the object.
  pub create-Stored :
      (wanted : ObjectMeta) (make : ObjectMeta → Trace → Reply (Unit {0}))
      (made : ObjectMeta → Reply (Unit {0}) → Call) (a : B) (b c : ApiError → B) (h : Trace)
      → ((e : ApiError) → stopped (b e) ≡ true)
      → ((e : ApiError) → stopped (c e) ≡ true)
      → let r =
          on_reply
            (m.set_controller_reference cr.meta wanted)
            (λ meta. call (make meta) (made meta) >>= λ reply.
              on_reply reply (λ u. pure a) (λ e. pure (b e)))
            (λ e. pure (c e))
            h in
        stopped r.0 ≡ false → Stored m cr wanted made r.1
  unfolding ◌>>=◌ call on_reply pure
  create-Stored wanted make made a b c h refused unowned goes_on =
      elim (Reply-cases (m.set_controller_reference cr.meta wanted)) [
        | inr (e, failed) ↦ cc (unowned e)
        | inl (meta, owned) ↦ elim (Reply-cases (make meta h)) [
          | inr (e, failed) ↦ cc (refused e, simp (owned, failed) at goes_on)
          | inl (u, stored) ↦
              simp (owned, stored) (record { meta = meta; controlled = owned; made = inl refl })
        ]
      ]

  -- The step goes on only if the bridge controls the object that was found, or the object was missing
  -- and its creation goes on.
  pub ensure-Held :
      {A : Type 0} (fetch : Trace → Reply A) (fetched : Reply A → Call) (meta_of : A → ObjectMeta)
      (New : Trace → Type 0) (a : B) (b : A → B) (c : ApiError → B) (create : Action B) (h : Trace)
      → ((o : A) → stopped (b o) ≡ true)
      → ((e : ApiError) → stopped (c e) ≡ true)
      → Only keeping create
      → ((t : Trace) → stopped (create t).0 ≡ false → New (create t).1)
      → let r =
          (call fetch fetched >>= λ reply.
          on_reply reply
            (λ o. if m.is_controlled_by (meta_of o) cr.meta then pure a else pure (b o))
            (λ e. if e.is_not_found then create else pure (c e)))
            h in
        stopped r.0 ≡ false → Held m cr meta_of fetched New r.1
  unfolding ◌>>=◌ call on_reply pure
  ensure-Held fetch fetched meta_of New a b c create h foreign broken only makes goes_on =
      elim (Reply-cases (fetch h)) [
        | inl (o, found) ↦ elim (Bool-cases (m.is_controlled_by (meta_of o) cr.meta)) [
          | inl owned ↦
              simp (found, owned)
                (kept (record { object = o; controlled = owned; found = inl refl }))
          | inr other ↦ cc (foreign o, simp (found, other) at goes_on)
        ]
        | inr (e, failed) ↦ elim (Bool-cases e.is_not_found) [
          | inr other ↦ cc (broken e, simp (failed, other) at goes_on)
          | inl gone ↦
              let h' : Trace = fetched (err e) ∷ h in
              simp (failed, gone)
                (created
                  (record { error = e; gone = gone; said = Only-Logged _ h' only (inl refl) })
                  (makes h' (simp (failed, gone) at goes_on)))
        ]
      ]
