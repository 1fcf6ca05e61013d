-- ===== src/Platform/Server.antt =====
-- A server that stores secrets and DPUClusters: what its calls leave in the store, and what its
-- answers say of it.
use dpf_hcp_bridge_operator.Base.{
  some_apart, none_apart, Bool, true, ◌&&◌, Option, none, some, [], ◌∷◌, ◌≡◌, ◌==◌, arith, eq_iff,
  eq_refl, refl, ap, sym, ◌∙◌, if◌then◌else◌, Bool-cases, inl, inr,
}
use dpf_hcp_bridge_operator.Types.{NamespacedName, ObjectMeta, Secret, DpuCluster, key_of}
use dpf_hcp_bridge_operator.Platform.Replies.{ok, err, ApiError}
use dpf_hcp_bridge_operator.Platform.Calls.{Call, Trace}
use dpf_hcp_bridge_operator.Platform.World.{Client}

pub record Store : Type 0 where
  pub secrets : NamespacedName → Option Secret
  pub clusters : NamespacedName → Option DpuCluster

abbrev pub key_eq : NamespacedName → NamespacedName → Bool
key_eq p q = p.namespace == q.namespace && p.name == q.name

-- The map with another value at the key.
unfoldable pub put : {V : Type 0} → NamespacedName → V → (NamespacedName → V) → NamespacedName → V
put key v f q = if key_eq key q then v else f q

-- What a call that the server has accepted leaves in the store.
unfoldable pub apply : Call → Store → Store
apply (Call.create_secret s (ok _)) st = record st {
  secrets = put (key_of s.meta) (some s) st.secrets;
}
apply (Call.update_secret s (ok _)) st = record st {
  secrets = put (key_of s.meta) (some s) st.secrets;
}
apply (Call.delete_secret key (ok _)) st = record st { secrets = put key none st.secrets }
apply (Call.update_dpu_cluster d (ok _)) st = record st {
  clusters = put (key_of d.meta) (some d) st.clusters;
}
apply _ st = st

-- The store after the calls of a trace.
unfoldable pub replay : Store → Trace → Store
replay s0 [] = s0
replay s0 (c ∷ t) = apply c (replay s0 t)

-- The server answers from its store alone: it refuses only what it has not, or has already.
pub record Served (s0 : Store) (k : Client) : Type 0 where
  pub get_secret-present :
      (h : Trace) (key : NamespacedName) (s : Secret)
      → (replay s0 h).secrets key ≡ some s
      → k.get_secret h key ≡ ok s
  pub get_secret-absent :
      (h : Trace) (key : NamespacedName)
      → (replay s0 h).secrets key ≡ none
      → (e : ApiError) × (k.get_secret h key ≡ err e) × (e.is_not_found ≡ true)
  pub create_secret-absent :
      (h : Trace) (s : Secret)
      → (replay s0 h).secrets (key_of s.meta) ≡ none
      → k.create_secret h s ≡ ok tt
  pub create_secret-present :
      (h : Trace) (s old : Secret)
      → (replay s0 h).secrets (key_of s.meta) ≡ some old
      → (e : ApiError) × (k.create_secret h s ≡ err e) × (e.is_already_exists ≡ true)
  pub update_secret-present :
      (h : Trace) (s old : Secret)
      → (replay s0 h).secrets (key_of s.meta) ≡ some old
      → k.update_secret h s ≡ ok tt
  pub get_dpu_cluster-present :
      (h : Trace) (key : NamespacedName) (d : DpuCluster)
      → (replay s0 h).clusters key ≡ some d
      → k.get_dpu_cluster h key ≡ ok d
  pub update_dpu_cluster-present :
      (h : Trace) (d old : DpuCluster)
      → (replay s0 h).clusters (key_of d.meta) ≡ some old
      → k.update_dpu_cluster h d ≡ ok tt

-- Each object of the map stands under its own key.
abbrev pub KeyedMap : {V : Type 0} → (V → ObjectMeta) → (NamespacedName → Option V) → Type 0
KeyedMap {V} meta f = (key : NamespacedName) (v : V) → f key ≡ some v → key_of (meta v) ≡ key

pub record Keyed (st : Store) : Type 0 where
  pub secret : KeyedMap (λ s. s.meta) st.secrets
  pub cluster : KeyedMap (λ d. d.meta) st.clusters

NamespacedName-ext : (p q : NamespacedName) → p.namespace ≡ q.namespace → p.name ≡ q.name → p ≡ q
NamespacedName-ext p q a b = cc (a, b)

pub key_eq_refl : (p : NamespacedName) → key_eq p p ≡ true
key_eq_refl p = rw (eq_refl p.namespace) (rw (eq_refl p.name) refl)

pub key_eq_lem : (p q : NamespacedName) → key_eq p q ≡ true → p ≡ q
key_eq_lem p q e =
    let parts : (p.namespace ≡ q.namespace) × (p.name ≡ q.name) =
      ground (arith, e, eq_iff p.namespace q.namespace, eq_iff p.name q.name) in
    NamespacedName-ext p q parts.0 parts.1

pub put_at :
    {V : Type 0} (key q : NamespacedName) (v : V) (f : NamespacedName → V)
    → key ≡ q
    → put key v f q ≡ v
unfolding put
put_at key q v f same = rw (sym same) (rw (key_eq_refl key) refl)

module _ {V : Type 0} (meta : V → ObjectMeta) (f : NamespacedName → Option V) where
  pub put-KeyedMap :
      (key : NamespacedName) (o : Option V)
      → ((v : V) → o ≡ some v → key_of (meta v) ≡ key)
      → KeyedMap meta f
      → KeyedMap meta (put key o f)
  unfolding put
  put-KeyedMap key o own keyed q v e = elim (Bool-cases (key_eq key q)) [
    | inl same ↦ own v (rw same at e) ∙ key_eq_lem key q same
    | inr apart ↦ keyed q v (rw apart at e)
  ]

put-stored :
    {V : Type 0} (meta : V → ObjectMeta) (f : NamespacedName → Option V) (v : V)
    → KeyedMap meta f
    → KeyedMap meta (put (key_of (meta v)) (some v) f)
put-stored meta f v keyed =
    put-KeyedMap meta f (key_of (meta v)) (some v)
      (λ w e. ap (λ x. key_of (meta x)) (sym (some_apart v w e))) keyed

Keyed-apply : (c : Call) (st : Store) → Keyed st → Keyed (apply c st)
unfolding apply
Keyed-apply (Call.create_secret s (ok _)) st keyed = record {
  secret = put-stored (λ x. x.meta) st.secrets s keyed.secret;
  cluster = keyed.cluster;
}
Keyed-apply (Call.update_secret s (ok _)) st keyed = record {
  secret = put-stored (λ x. x.meta) st.secrets s keyed.secret;
  cluster = keyed.cluster;
}
Keyed-apply (Call.delete_secret key (ok _)) st keyed = record {
  cluster = keyed.cluster;
  secret =
      put-KeyedMap (λ x. x.meta) st.secrets key none (λ w e. absurd (none_apart w (sym e)))
        keyed.secret;
}
Keyed-apply (Call.update_dpu_cluster d (ok _)) st keyed = record {
  secret = keyed.secret;
  cluster = put-stored (λ x. x.meta) st.clusters d keyed.cluster;
}
Keyed-apply _ st keyed = keyed

pub Keyed-replay : (s0 : Store) (h : Trace) → Keyed s0 → Keyed (replay s0 h)
unfolding replay
Keyed-replay s0 [] keyed = keyed
Keyed-replay s0 (c ∷ h) keyed = Keyed-apply c (replay s0 h) (Keyed-replay s0 h keyed)
