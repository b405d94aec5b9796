-- ===== src/Controller/NodeSelectors.antt =====
-- The constraints of the operator's own pod that its tasks inherit: cacheNodeSelectors and
-- getNodeSelectorsFromCache of pkg/controllers/terraform_controller.go, with the cache.
use terraform_operator.Prelude.{
  String, Bool, true, false, List, [], ◌∷◌, ◌==◌, if◌then◌else◌, Option, none, some, ◌&&◌, ◌||◌,
  not, ◌≡◌, refl, ap, ◌∙◌, arith,
}
use terraform_operator.Api.Spec.{StringMap}
use terraform_operator.Cluster.Client.{Got, got, failed}
use terraform_operator.Controller.Options.{Inherited}

-- `r.Cache`: the entries under the three keys that cmd/manager/main.go gives, and the locks of
-- requests, whose keys end in `-reconcile-lock`. An entry is set for good, or deleted.
pub record Cache : Type 0 where
  pub affinity : Option (Option String)
  pub node_selector : Option StringMap
  pub tolerations : Option (List String)
  pub locks : List (String × String)

-- The flags of the operator, and `POD_NAMESPACE` and `POD_NAME` of its environment.
pub record Settings : Type 0 where
  pub inherit_affinity : Bool
  pub inherit_node_selector : Bool
  pub inherit_tolerations : Bool
  pub pod_namespace : String
  pub pod_name : String

pub record OwnerReference : Type 0 where
  pub kind : String
  pub name : String

-- The reads of the operator's own objects: the owners of a pod and of a replica set, and the
-- constraints in the template of a deployment.
pub record Workloads (World : Type 0) : Type 0 where
  pub pod_owners : (namespace name : String) → World → Got (List OwnerReference) × World
  pub replica_set_owners : (namespace name : String) → World → Got (List OwnerReference) × World
  pub deployment : (namespace name : String) → World → Got Inherited × World

abbrev is_found {ℓ} : {A : Type ℓ} → Option A → Bool
is_found none = false
is_found (some a) = true

abbrev pub inherits_any : Settings → Bool
inherits_any s = s.inherit_affinity || s.inherit_node_selector || s.inherit_tolerations

-- `foundAll`
abbrev pub found_all : Settings → Cache → Bool
found_all s cache =
    (not s.inherit_affinity || is_found cache.affinity)
    && (not s.inherit_node_selector || is_found cache.node_selector)
    && (not s.inherit_tolerations || is_found cache.tolerations)

-- The name of the one owner, if it is of the kind.
unfoldable pub only_owner : (kind : String) → List OwnerReference → Option String
only_owner kind [] = none
only_owner kind (owner ∷ []) = if owner.kind == kind then some owner.name else none
only_owner kind (owner ∷ other ∷ owners) = none

module _ {World : Type 0} (s : Settings) (o : Workloads World) where
  remember : Cache → Got Inherited × World → Cache × World
  remember cache (failed e, w) = (cache, w)
  remember cache (got i, w) = (
    record cache {
      affinity = if s.inherit_affinity then some i.affinity else cache.affinity;
      node_selector = if s.inherit_node_selector then some i.node_selector else cache.node_selector;
      tolerations = if s.inherit_tolerations then some i.tolerations else cache.tolerations;
    },
    w,
  )

  abbrev of_deployment : Cache → World → Option String → Cache × World
  of_deployment cache w none = (cache, w)
  of_deployment cache w (some name) = remember cache (o.deployment s.pod_namespace name w)

  from_replica_set : Cache → Got (List OwnerReference) × World → Cache × World
  unfolding only_owner remember
  from_replica_set cache (failed e, w) = (cache, w)
  from_replica_set cache (got owners, w) = of_deployment cache w (only_owner "Deployment" owners)

  abbrev of_replica_set : Cache → World → Option String → Cache × World
  of_replica_set cache w none = (cache, w)
  of_replica_set cache w (some name) =
      from_replica_set cache (o.replica_set_owners s.pod_namespace name w)

  from_pod : Cache → Got (List OwnerReference) × World → Cache × World
  unfolding only_owner from_replica_set
  from_pod cache (failed e, w) = (cache, w)
  from_pod cache (got owners, w) = of_replica_set cache w (only_owner "ReplicaSet" owners)

  -- What fails is only logged: the error is always nil.
  unfoldable pub cache_node_selectors : Cache → World → Cache × World
  unfolding from_pod
  cache_node_selectors cache w =
      if not (inherits_any s)
      then (cache, w)
      else if found_all s cache
      then (cache, w)
      else if s.pod_namespace == ""
      then (cache, w)
      else if s.pod_name == ""
      then (cache, w)
      else from_pod cache (o.pod_owners s.pod_namespace s.pod_name w)

abbrev or_default : {A : Type 0} → A → Option A → A
or_default default none = default
or_default default (some a) = a

unfoldable pub get_node_selectors_from_cache : Settings → Cache → Inherited
get_node_selectors_from_cache s cache = record {
  affinity = if s.inherit_affinity then or_default none cache.affinity else none;
  node_selector = if s.inherit_node_selector then or_default [] cache.node_selector else [];
  tolerations = if s.inherit_tolerations then or_default [] cache.tolerations else [];
}

-- What the flags let through.
abbrev pub allowed : Settings → Inherited → Inherited
allowed s i = record {
  affinity = if s.inherit_affinity then i.affinity else none;
  node_selector = if s.inherit_node_selector then i.node_selector else [];
  tolerations = if s.inherit_tolerations then i.tolerations else [];
}

remember-allowed :
    {World : Type 0} (s : Settings) (o : Workloads World) (cache : Cache) (i : Inherited)
    (w : World)
    → get_node_selectors_from_cache s (remember s o cache (got i, w)).0 ≡ allowed s i
unfolding get_node_selectors_from_cache remember
remember-allowed s o cache i w = ground arith

module _ {World : Type 0} (s : Settings) (o : Workloads World) (cache : Cache) (w w1 w2 w3 : World)
    (owners owners' : List OwnerReference) (set deployment : String) (i : Inherited)
    (inherits : inherits_any s ≡ true) (missing : found_all s cache ≡ false)
    (known : ((s.pod_namespace == "") ≡ false) × ((s.pod_name == "") ≡ false))
    (pod : o.pod_owners s.pod_namespace s.pod_name w ≡ (got owners, w1))
    (owned : only_owner "ReplicaSet" owners ≡ some set)
    (replicas : o.replica_set_owners s.pod_namespace set w1 ≡ (got owners', w2))
    (owned' : only_owner "Deployment" owners' ≡ some deployment)
    (read : o.deployment s.pod_namespace deployment w2 ≡ (got i, w3)) where
  from_pod-lem : from_pod s o cache (got owners, w1) ≡ remember s o cache (got i, w3)
  unfolding from_pod from_replica_set
  from_pod-lem =
      ap (of_replica_set s o cache w1) owned
      ∙ ap (from_replica_set s o cache) replicas
      ∙ ap (of_deployment s o cache w2) owned'
      ∙ ap (remember s o cache) read

  -- If something is to be inherited and missing from the cache, and the operator's pod is known and
  -- stands under a replica set of a deployment, then the tasks inherit from the deployment's
  -- template what the flags let through, and nothing else, whatever was cached before.
  pub cache_node_selectors-allowed :
      get_node_selectors_from_cache s (cache_node_selectors s o cache w).0 ≡ allowed s i
  unfolding cache_node_selectors
  cache_node_selectors-allowed =
      let looked : cache_node_selectors s o cache w
          ≡ from_pod s o cache (o.pod_owners s.pod_namespace s.pod_name w) =
        ground arith in
      ap (λ x. get_node_selectors_from_cache s x.0)
        (looked ∙ ap (from_pod s o cache) pod ∙ from_pod-lem)
      ∙ remember-allowed s o cache i w3

module _ {World : Type 0} (s : Settings) (o : Workloads World) where
  remember-locks :
      (cache : Cache) (x : Got Inherited × World) → (remember s o cache x).0.locks ≡ cache.locks
  unfolding remember
  remember-locks cache (failed e, w) = refl
  remember-locks cache (got i, w) = refl

  of_deployment-locks :
      (cache : Cache) (w : World) (name : Option String)
      → (of_deployment s o cache w name).0.locks ≡ cache.locks
  of_deployment-locks cache w none = refl
  of_deployment-locks cache w (some name) = remember-locks cache _

  from_replica_set-locks :
      (cache : Cache) (x : Got (List OwnerReference) × World)
      → (from_replica_set s o cache x).0.locks ≡ cache.locks
  unfolding from_replica_set
  from_replica_set-locks cache (failed e, w) = refl
  from_replica_set-locks cache (got owners, w) = of_deployment-locks cache w _

  of_replica_set-locks :
      (cache : Cache) (w : World) (name : Option String)
      → (of_replica_set s o cache w name).0.locks ≡ cache.locks
  of_replica_set-locks cache w none = refl
  of_replica_set-locks cache w (some name) = from_replica_set-locks cache _

  from_pod-locks :
      (cache : Cache) (x : Got (List OwnerReference) × World)
      → (from_pod s o cache x).0.locks ≡ cache.locks
  unfolding from_pod
  from_pod-locks cache (failed e, w) = refl
  from_pod-locks cache (got owners, w) = of_replica_set-locks cache w _

  pub cache_node_selectors-locks :
      (cache : Cache) (w : World) → (cache_node_selectors s o cache w).0.locks ≡ cache.locks
  unfolding cache_node_selectors
  cache_node_selectors-locks cache w =
      ground (arith, from_pod-locks cache (o.pod_owners s.pod_namespace s.pod_name w))
