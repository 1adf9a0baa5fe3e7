-- ===== src/Providers.antt =====
-- The providers of clusters: the registry of pkg/kubernetes/provider_registry.go, `NewProvider` and
-- `resolveStrategy` of provider.go, the choice of a context of manager.go, and the providers of
-- provider_single.go, provider_kubeconfig.go and of pkg/kcp/provider.go. Managers, the kubeconfig and
-- what the in-cluster configuration says are parameters.
pub mod Registry
pub mod Contexts
pub mod Workspaces
mod Tests
use kube_mcp_server.Base.{
  ℕ, zero, suc, String, Bool, true, false, not, ◌&&◌, ◌||◌, ◌⊎◌, inl, inr, Option, none, some, List,
  [], ◌∷◌, ◌==◌, ◌!=◌, if◌then◌else◌, ltb, is_some, map, length, contains,
}
use kube_mcp_server.Base.Sort.{sort_strings}
use kube_mcp_server.Base.Assoc.{Assoc, lookup, insert}

-- What a kubeconfig says: its current context, and its contexts with their clusters' URLs.
pub record Kubeconfig : Type 0 where
  pub current_context : String
  pub contexts : List String

pub data ProviderError : Type 0 where
  strategy_unknown : String → List String → ProviderError
  kubeconfig_not_allowed in_cluster_not_allowed not_in_cluster : ProviderError
  load_failed manager_failed : String → ProviderError
  no_contexts : ProviderError
  many_contexts : List String → ProviderError
  other_target : String → ProviderError
  workspace_not_found : String → ProviderError

-- IsInCluster: a path to a kubeconfig wins over the surroundings.
unfoldable pub is_in_cluster : String → Bool → Bool
is_in_cluster kubeconfig_path in_cluster = if kubeconfig_path != "" then false else in_cluster

-- resolveStrategy
unfoldable pub resolve_strategy : String → String → Bool → String
resolve_strategy strategy kubeconfig_path in_cluster =
    if strategy != ""
    then strategy
    else if kubeconfig_path != ""
    then "kubeconfig"
    else if in_cluster
    then "in-cluster"
    else "kubeconfig"

-- resolveKubeconfigContext, of the loaded kubeconfig or the error of loading it.
abbrev pub only_context : List String → ProviderError ⊎ String
only_context [] = inl no_contexts
only_context (name ∷ []) = inr name
only_context (n ∷ m ∷ names) = inl (many_contexts (sort_strings (n ∷ m ∷ names)))

abbrev pub context_of : String ⊎ Kubeconfig → ProviderError ⊎ String
context_of (inl e) = inl (load_failed e)
context_of (inr raw) =
    if raw.current_context != "" then inr raw.current_context else only_context raw.contexts

unfoldable pub resolve_kubeconfig_context : String ⊎ Kubeconfig → String → ProviderError ⊎ String
unfolding sort_strings
resolve_kubeconfig_context loaded context = if context != "" then inr context else context_of loaded

-- The context that the provider takes as its default.
abbrev pub first_of_one : List String → String
first_of_one (name ∷ []) = name
first_of_one _ = ""

unfoldable pub default_context_of : Kubeconfig → String
default_context_of raw =
    if raw.current_context == "" then first_of_one raw.contexts else raw.current_context

-- What makes managers: for a path of a kubeconfig and a context, with the client libraries.
pub record Clusters (M : Type 0) : Type 0 where
  pub in_cluster : Bool
  pub kubeconfig_path : String
  pub loaded : String ⊎ Kubeconfig
  pub new_manager : String → String ⊎ M
  pub new_in_cluster_manager : String ⊎ M

module _ {M : Type 0} (clusters : Clusters M) where
  abbrev pub manager_of : String ⊎ M → ProviderError ⊎ M
  manager_of (inl e) = inl (manager_failed e)
  manager_of (inr m) = inr m

  abbrev pub manager_in : ProviderError ⊎ String → ProviderError ⊎ M
  manager_in (inl e) = inl e
  manager_in (inr context) = manager_of (clusters.new_manager context)

  -- NewKubeconfigManager
  unfoldable pub new_kubeconfig_manager : String → ProviderError ⊎ M
  unfolding is_in_cluster resolve_kubeconfig_context
  new_kubeconfig_manager context =
      if is_in_cluster clusters.kubeconfig_path clusters.in_cluster
      then inl kubeconfig_not_allowed
      else manager_in (resolve_kubeconfig_context clusters.loaded context)

  -- NewInClusterManager
  unfoldable pub new_in_cluster_manager : ProviderError ⊎ M
  unfolding is_in_cluster
  new_in_cluster_manager =
      if clusters.kubeconfig_path != ""
      then inl in_cluster_not_allowed
      else if not (is_in_cluster clusters.kubeconfig_path clusters.in_cluster)
      then inl not_in_cluster
      else manager_of clusters.new_in_cluster_manager

  -- The manager of a provider for a single cluster, by its strategy.
  unfoldable pub single_cluster_manager : String → ProviderError ⊎ M
  unfolding new_kubeconfig_manager new_in_cluster_manager
  single_cluster_manager strategy =
      if clusters.kubeconfig_path != "" && (strategy == "in-cluster")
      then inl in_cluster_not_allowed
      else if strategy == "in-cluster" || is_in_cluster clusters.kubeconfig_path clusters.in_cluster
      then new_in_cluster_manager
      else new_kubeconfig_manager ""

-- GetDerivedKubernetes of that provider names no other target.
unfoldable pub single_manager_for : {M : Type 0} → String → String → M → ProviderError ⊎ M
single_manager_for strategy target manager =
    if target != "" then inl (other_target strategy) else inr manager
