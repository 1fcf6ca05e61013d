-- ===== src/HostedCluster/Cleanup/Remains.antt =====
-- A server over several attempts of the cleanup: what it still has, what it answers, and what it
-- removes in between.
use dpf_hcp_bridge_operator.Base.{true, Option, none, some, ◌≡◌, ◌⊎◌, is_some}
use dpf_hcp_bridge_operator.Types.{HostedCluster, NodePool, Secret, NamespacedName, ObjectMeta}
use dpf_hcp_bridge_operator.Platform.{Client, Call, Trace, Reply, ApiError, ok, err}
use dpf_hcp_bridge_operator.Platform.Only.{Logged}
use dpf_hcp_bridge_operator.HostedCluster.Cleanup.Gone.{says_gone}

-- What the server still has of the objects of a bridge, which stand under its key.
pub record Remains : Type 0 where
  pub hosted_cluster : Option HostedCluster
  pub node_pool : Option NodePool

-- The answer to a fetch is the object, or that there is none.
abbrev pub Fetches : {A : Type 0} → Option A → Reply A → Type 0
Fetches none r = (e : ApiError) × (r ≡ err e) × (says_gone e ≡ true)
Fetches (some a) r = r ≡ ok a

-- During an attempt the server answers from what remains, and accepts each deletion.
pub record Answers (st : Remains) (key : NamespacedName) (k : Client) : Type 0 where
  pub hosted_cluster : (h : Trace) → Fetches st.hosted_cluster (k.get_hosted_cluster h key)
  pub node_pool : (h : Trace) → Fetches st.node_pool (k.get_node_pool h key)
  pub delete_hosted_cluster : (h : Trace) → k.delete_hosted_cluster h key ≡ ok tt
  pub delete_node_pool : (h : Trace) → k.delete_node_pool h key ≡ ok tt
  pub secret :
      (h : Trace) (secret_key : NamespacedName)
      → ((s : Secret) × (k.get_secret h secret_key ≡ ok s))
        ⊎ ((e : ApiError) × (k.get_secret h secret_key ≡ err e) × (e.is_not_found ≡ true))
  pub delete_secret :
      (h : Trace) (secret_key : NamespacedName) → k.delete_secret h secret_key ≡ ok tt

abbrev pub Marked : ObjectMeta → Type 0
Marked o = is_some o.deletion_timestamp ≡ true

-- Until the next attempt the server removes what was marked before, or has been deleted in this one,
-- and nobody creates the objects anew.
pub record Settled (key : NamespacedName) (st st' : Remains) (t : Trace) : Type 0 where
  pub hosted_cluster-absent : st.hosted_cluster ≡ none → st'.hosted_cluster ≡ none
  pub node_pool-absent : st.node_pool ≡ none → st'.node_pool ≡ none
  pub hosted_cluster-removed :
      (hc : HostedCluster)
      → st.hosted_cluster ≡ some hc
      → Marked hc.meta ⊎ Logged (Call.delete_hosted_cluster key (ok tt)) t
      → st'.hosted_cluster ≡ none
  pub node_pool-removed :
      (np : NodePool)
      → st.node_pool ≡ some np
      → Marked np.meta ⊎ Logged (Call.delete_node_pool key (ok tt)) t
      → st'.node_pool ≡ none
