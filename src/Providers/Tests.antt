-- ===== src/Providers/Tests.antt =====
-- Runs of the providers, and the theorems at concrete inputs.
use kube_mcp_server.Base.{
  ℕ, String, true, false, inl, inr, Option, none, some, List, [], ◌∷◌, ◌==◌, ◌≡◌, ◌↔◌, refl, sym,
  ap, ◌∙◌, subst, arith, if◌then◌else◌, contains, eq_iff,
}
use kube_mcp_server.Base.Assoc.{Assoc, lookup, insert}
use kube_mcp_server.Base.Sort.{sort_strings}
use kube_mcp_server.Base.Text.{strip_prefix, trim_last_slash}
use kube_mcp_server.Providers.{
  Kubeconfig, Clusters, is_in_cluster, resolve_kubeconfig_context, new_kubeconfig_manager,
  many_contexts,
}
use kube_mcp_server.Providers.Registry.{register_provider}
use kube_mcp_server.Providers.Contexts.{ContextProvider, manager_for_context, make_manager}
use kube_mcp_server.Providers.Contexts.Answered.{IsReady, Answers, manager_for_context-Answers}
use kube_mcp_server.Providers.Contexts.Added.{AddsTarget, manager_for_context-AddsTarget}
use kube_mcp_server.Providers.Workspaces.{
  parse_server_url, split_at_first, discover_workspaces_recursive, discover_all_workspaces,
  full_path, extract_workspace_from_url, construct_workspace_url,
}
use kube_mcp_server.Providers.Workspaces.Tree.{Reach, IsChild, IsWithin}
use kube_mcp_server.Providers.Workspaces.Found.{discover_all_workspaces-Reach}
use kube_mcp_server.Providers.Workspaces.Provider.{
  KcpProvider, Surroundings, RawConfig, reset_kcp, current_server, manager_for_workspace,
  workspace_not_found, find_or_create_workspace_context, find_workspace_context,
}
use kube_mcp_server.Providers.Workspaces.Provider.Targets.{HasTargets, reset_kcp-targets}
use kube_mcp_server.Providers.Workspaces.Provider.Kept.{
  KeepsTargets, manager_for_workspace-KeepsTargets,
}

-- A context without a name is found only where the kubeconfig has one.
many :
    resolve_kubeconfig_context (inr (record { current_context = ""; contexts = "b" ∷ "a" ∷ [] })) ""
    ≡ inl (many_contexts ("a" ∷ "b" ∷ []))
unfolding resolve_kubeconfig_context sort_strings
many = refl

parsed : parse_server_url "https://kcp:6443/clusters/root:org/" ≡ ("https://kcp:6443", "root:org")
unfolding parse_server_url split_at_first strip_prefix trim_last_slash
parsed = refl

abbrev two_factories : Assoc ℕ
two_factories = ("kubeconfig", 1) ∷ ("in-cluster", 2) ∷ []

registered :
    register_provider "kcp" 3 two_factories
    ≡ some (("kubeconfig", 1) ∷ ("in-cluster", 2) ∷ ("kcp", 3) ∷ [])
unfolding register_provider lookup insert
registered = refl

abbrev dev_config : Kubeconfig
dev_config = record { current_context = "dev"; contexts = "dev" ∷ "prod" ∷ [] }

abbrev dev_clusters : Clusters String
dev_clusters = record {
  in_cluster = false;
  kubeconfig_path = "";
  loaded = inr dev_config;
  new_manager = λ context. inr context;
  new_in_cluster_manager = inl "";
}

abbrev dev_provider : ContextProvider String
dev_provider = record {
  default_context = "dev";
  managers = ("dev", some "dev") ∷ ("prod", none) ∷ [];
}

dev_provider-IsReady : IsReady dev_provider
unfolding lookup
dev_provider-IsReady = record { manager = "dev"; there = refl }

made :
    manager_for_context dev_clusters "prod" dev_provider (λ p. p)
    ≡ some (
      inr "prod",
      record dev_provider { managers = ("dev", some "dev") ∷ ("prod", some "prod") ∷ [] },
    )
unfolding manager_for_context make_manager lookup insert new_kubeconfig_manager
    resolve_kubeconfig_context is_in_cluster
made = refl

manager_for_context-Answers_example :
    Answers dev_clusters "prod" dev_provider
      (manager_for_context dev_clusters "prod" dev_provider (λ p. p))
unfolding lookup
manager_for_context-Answers_example =
    manager_for_context-Answers dev_clusters "prod" dev_provider (λ p. p) dev_provider-IsReady
      dev_provider-IsReady

-- Asked for the context with the empty name, the provider has a target with that name afterwards.
empty_target :
    manager_for_context dev_clusters "" dev_provider (λ p. p)
    ≡ some (
      inr "dev",
      record dev_provider {
        managers = ("dev", some "dev") ∷ ("prod", none) ∷ ("", some "dev") ∷ [];
      },
    )
unfolding manager_for_context make_manager lookup insert new_kubeconfig_manager
    resolve_kubeconfig_context is_in_cluster
empty_target = refl

-- A server with two workspaces, one below the other.
abbrev nested : String → Option (List String)
nested w = if w == "root" then some ("org" ∷ []) else if w == "root:org" then some [] else none

only_child : (child : String) → IsChild nested "root" child → child ≡ "root:org"
only_child child (names, e, l) = l.path ∙ ap (full_path "root") (sym same)
  where
    listed : "org" ∷ [] ≡ names
    listed = cc e

    same : "org" ≡ l.name
    same =
        ground (
          arith,
          eq_iff "org" l.name,
          subst (λ ns. contains ns l.name ≡ true) (sym listed) l.in_list,
        )

no_grandchild : (child : String) → IsChild nested "root:org" child → ⊥
no_grandchild child (names, e, l) =
    let listed : [] ≡ names = cc e in
    ground (arith, subst (λ ns. contains ns l.name ≡ true) (sym listed) l.in_list)

nested-IsWithin : IsWithin nested 2 "root"
nested-IsWithin child k grandchild k' =
    no_grandchild grandchild (subst (λ c. IsChild nested c grandchild) (only_child child k) k')

discover_all_workspaces-Reach_example :
    (found : List String) × (discover_all_workspaces nested 2 "root" ≡ some found)
    × ((workspace : String) → (contains found workspace ≡ true) ↔ Reach nested "root" workspace)
discover_all_workspaces-Reach_example =
    discover_all_workspaces-Reach nested 2 "root" nested-IsWithin

abbrev kcp_config : RawConfig
kcp_config = record {
  current_context = "kcp";
  contexts = ("kcp", "cluster") ∷ [];
  clusters = ("cluster", "https://kcp:6443/clusters/root") ∷ [];
}

abbrev kcp_server : Surroundings String
kcp_server = record {
  raw = inr kcp_config;
  rest_config = none;
  base_manager = inr "base";
  listing = nested;
  depth = 2;
  derived = λ m. none;
  new_manager = λ url context. inr url;
}

abbrev empty_kcp : KcpProvider String
empty_kcp = record { base_server_url = ""; default_workspace = ""; managers = [] }

abbrev root_kcp : KcpProvider String
root_kcp = record {
  base_server_url = "https://kcp:6443";
  default_workspace = "root";
  managers = ("root:org", none) ∷ ("root", some "base") ∷ [];
}

reset_once : reset_kcp kcp_server empty_kcp ≡ some (none, root_kcp)
unfolding reset_kcp current_server parse_server_url split_at_first strip_prefix trim_last_slash
    discover_all_workspaces discover_workspaces_recursive lookup insert
reset_once = refl

reset_kcp-targets_example : HasTargets kcp_server root_kcp
reset_kcp-targets_example =
    reset_kcp-targets kcp_server empty_kcp root_kcp nested-IsWithin reset_once

unknown_workspace :
    manager_for_workspace kcp_server "other" root_kcp
    ≡ some (inl (workspace_not_found "other"), root_kcp)
unfolding manager_for_workspace lookup
unknown_workspace = refl

manager_for_workspace-KeepsTargets_example :
    KeepsTargets "other" root_kcp (inl (workspace_not_found "other"), root_kcp)
manager_for_workspace-KeepsTargets_example =
    manager_for_workspace-KeepsTargets kcp_server "other" root_kcp root_kcp
      (inl (workspace_not_found "other")) unknown_workspace

-- The workspace below the root gets a manager of its own, for a context that is made up.
new_workspace :
    manager_for_workspace kcp_server "root:org" root_kcp
    ≡ some (
      inr "https://kcp:6443/clusters/root:org",
      record root_kcp {
        managers =
            ("root:org", some "https://kcp:6443/clusters/root:org") ∷ ("root", some "base") ∷ [];
      },
    )
unfolding manager_for_workspace lookup insert find_or_create_workspace_context
    find_workspace_context extract_workspace_from_url parse_server_url split_at_first strip_prefix
    trim_last_slash current_server construct_workspace_url
new_workspace = refl

manager_for_context-AddsTarget_example :
    AddsTarget dev_clusters "" dev_provider
      (manager_for_context dev_clusters "" dev_provider (λ q. q))
manager_for_context-AddsTarget_example =
    manager_for_context-AddsTarget dev_clusters "" dev_provider dev_provider-IsReady
