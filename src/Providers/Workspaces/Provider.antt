-- ===== src/Providers/Workspaces/Provider.antt =====
-- The provider of kcp workspaces (pkg/kcp/provider.go). Managers and what the kubeconfig, the REST
-- configuration and the server say are parameters.
pub mod Targets
pub mod Kept
use Prim.Native.String as Str
use kube_mcp_server.Base.{
  ℕ, String, Bool, true, false, ◌&&◌, ◌⊎◌, inl, inr, Option, none, some, List, [], ◌∷◌, ◌==◌, ◌!=◌,
  if◌then◌else◌, ltb, map, length, any,
}
use kube_mcp_server.Base.Assoc.{Assoc, lookup, insert}
use kube_mcp_server.Base.Sort.{sort_strings}
use kube_mcp_server.Providers.Workspaces.{
  parse_server_url, extract_workspace_from_url, construct_workspace_url, discover_all_workspaces,
}

pub data KcpError : Type 0 where
  load_failed rest_failed manager_failed derived_failed : String → KcpError
  no_current_context no_current_cluster no_workspace : KcpError
  workspace_not_found : String → KcpError

-- A kubeconfig: the cluster of each context, and the server of each cluster.
pub record RawConfig : Type 0 where
  pub current_context : String
  pub contexts : Assoc String
  pub clusters : Assoc String

pub record KcpProvider (M : Type 0) : Type 0 where
  pub base_server_url : String
  pub default_workspace : String
  pub managers : Assoc (Option M)

-- What a reset reads: the kubeconfig, the REST configuration, the manager of the current context, what
-- the server lists and how deep, and whether the base manager derives a client.
pub record Surroundings (M : Type 0) : Type 0 where
  pub raw : String ⊎ RawConfig
  pub rest_config : Option String
  pub base_manager : String ⊎ M
  pub listing : String → Option (List String)
  pub depth : ℕ
  pub derived : M → Option String
  pub new_manager : String → String → String ⊎ M

-- The server of the current context's cluster.
unfoldable pub current_server : RawConfig → KcpError ⊎ String
unfolding lookup
current_server raw = elim (lookup raw.current_context raw.contexts) [
  | none ↦ inl no_current_context
  | some cluster ↦ elim (lookup cluster raw.clusters) [
    | none ↦ inl no_current_cluster
    | some server ↦ inr server
  ]
]

abbrev pub KcpOutcome : Type 0 → Type 0
KcpOutcome M = Option (Option KcpError × KcpProvider M)

abbrev pub set_add : String → List String → List String
set_add x xs = if any (λ y. y == x) xs then xs else x ∷ xs

-- workspacesFromKubeconfig, of the clusters.
unfoldable pub workspaces_from_kubeconfig : Assoc String → List String
unfolding extract_workspace_from_url
workspaces_from_kubeconfig [] = []
workspaces_from_kubeconfig (cluster ∷ clusters) =
    let rest = workspaces_from_kubeconfig clusters in
    if extract_workspace_from_url cluster.1 != ""
    then set_add (extract_workspace_from_url cluster.1) rest
    else rest

-- The loop of findOrCreateWorkspaceContext; the outer `none` is the dereference of a cluster that the
-- kubeconfig does not have.
unfoldable pub find_workspace_context :
    Assoc String → String → Assoc String → Option (Option String)
unfolding lookup extract_workspace_from_url
find_workspace_context clusters workspace [] = some none
find_workspace_context clusters workspace (context ∷ contexts) =
    let later = find_workspace_context clusters workspace contexts in
    elim (lookup context.1 clusters) [
      | none ↦ none
      | some server ↦
          if extract_workspace_from_url server == workspace then some (some context.0) else later
    ]

abbrev pub virtual_context : String → RawConfig → String → RawConfig
virtual_context base raw workspace = record raw {
  contexts = insert (Str.◌++◌ "kcp-" workspace) (Str.◌++◌ "kcp-cluster-" workspace) raw.contexts;
  clusters =
      insert (Str.◌++◌ "kcp-cluster-" workspace) (construct_workspace_url base workspace)
        raw.clusters;
}

-- findOrCreateWorkspaceContext: the context's name and the kubeconfig with it.
unfoldable pub find_or_create_workspace_context :
    String → RawConfig → String → Option (String × RawConfig)
unfolding find_workspace_context current_server insert construct_workspace_url
find_or_create_workspace_context base raw workspace =
    elim (find_workspace_context raw.clusters workspace raw.contexts) [
      | none ↦ none
      | some (some context) ↦ some (context, raw)
      | some none ↦ elim (current_server raw) [
        | inl e ↦ none
        | inr server ↦ some (Str.◌++◌ "kcp-" workspace, virtual_context base raw workspace)
      ]
    ]

module _ {M : Type 0} where
  -- Every workspace gets a manager that is nil, the default one the base manager.
  abbrev pub nil_managers : List String → Assoc (Option M) → Assoc (Option M)
  nil_managers [] managers = managers
  nil_managers (workspace ∷ workspaces) managers =
      nil_managers workspaces (insert workspace none managers)

  abbrev pub with_managers : List String → M → KcpProvider M → KcpProvider M
  with_managers workspaces base p = record p {
    managers = insert p.default_workspace (some base) (nil_managers workspaces []);
  }

  abbrev pub finish : Surroundings M → M → KcpProvider M → Option KcpError × KcpProvider M
  finish env base p = elim (env.derived base) [
    | some e ↦ (some (derived_failed e), p)
    | none ↦ (none, p)
  ]

  -- reset behind the parsing of the server's URL.
  abbrev pub reset_workspaces : Surroundings M → KcpProvider M → KcpOutcome M
  reset_workspaces env p = elim env.rest_config [
    | some e ↦ some (some (rest_failed e), p)
    | none ↦ elim env.base_manager [
      | inl e ↦ some (some (manager_failed e), p)
      | inr base ↦ elim (discover_all_workspaces env.listing env.depth p.default_workspace) [
        | none ↦ none
        | some workspaces ↦ some (finish env base (with_managers workspaces base p))
      ]
    ]
  ]

  abbrev pub at_server : String → KcpProvider M → KcpProvider M
  at_server server p = record p {
    base_server_url = (parse_server_url server).0;
    default_workspace = (parse_server_url server).1;
  }

  abbrev pub reset_at : Surroundings M → String → KcpProvider M → KcpOutcome M
  reset_at env server p =
      if (parse_server_url server).1 == ""
      then some (some no_workspace, at_server server p)
      else reset_workspaces env (at_server server p)

  -- reset: what it has written before an error stays. `none` is a tree of workspaces deeper than the
  -- depth given. The discovery returns no error, so that the workspaces of the kubeconfig are not asked
  -- for.
  unfoldable pub reset_kcp : Surroundings M → KcpProvider M → KcpOutcome M
  unfolding current_server parse_server_url discover_all_workspaces insert
  reset_kcp env p = elim env.raw [
    | inl e ↦ some (some (load_failed e), p)
    | inr raw ↦ elim (current_server raw) [
      | inl e ↦ some (some e, p)
      | inr server ↦ reset_at env server p
    ]
  ]

  abbrev pub found : Option (Option M) → Option M
  found none = none
  found (some m) = m

  -- IsMultiTarget, GetTargets
  unfoldable pub is_multi_workspace : KcpProvider M → Bool
  is_multi_workspace p = ltb 1 (length p.managers)

  unfoldable pub workspace_targets : KcpProvider M → List String
  unfolding sort_strings
  workspace_targets p = sort_strings (map (λ entry. entry.0) p.managers)

  abbrev pub store_workspace_manager :
      String → String ⊎ M → KcpProvider M → (KcpError ⊎ M) × KcpProvider M
  store_workspace_manager workspace (inl e) p = (inl (manager_failed e), p)
  store_workspace_manager workspace (inr m) p =
      (inr m, record p { managers = insert workspace (some m) p.managers })

  -- The manager of a workspace that has none yet: `none` is a panic in the search of its context.
  abbrev pub make_workspace_manager :
      Surroundings M → String → KcpProvider M → Option ((KcpError ⊎ M) × KcpProvider M)
  make_workspace_manager env workspace p = elim env.raw [
    | inl e ↦ some (inl (load_failed e), p)
    | inr raw ↦ elim (find_or_create_workspace_context p.base_server_url raw workspace) [
      | none ↦ none
      | some (context, config) ↦ some (
          store_workspace_manager workspace
            (env.new_manager (construct_workspace_url p.base_server_url workspace) context) p)
    ]
  ]

  -- managerForWorkspace
  unfoldable pub manager_for_workspace :
      Surroundings M → String → KcpProvider M → Option ((KcpError ⊎ M) × KcpProvider M)
  unfolding lookup insert find_or_create_workspace_context construct_workspace_url
  manager_for_workspace env workspace p = elim (lookup workspace p.managers) [
    | none ↦ some (inl (workspace_not_found workspace), p)
    | some (some m) ↦ some (inr m, p)
    | some none ↦ make_workspace_manager env workspace p
  ]

  -- GetDerivedKubernetes, up to what the manager derives: no workspace means the default one.
  unfoldable pub workspace_manager_in_call :
      Surroundings M → String → KcpProvider M → Option ((KcpError ⊎ M) × KcpProvider M)
  unfolding manager_for_workspace
  workspace_manager_in_call env workspace p =
      manager_for_workspace env (if workspace == "" then p.default_workspace else workspace) p
