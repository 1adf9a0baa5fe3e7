-- ===== src/Providers/Workspaces.antt =====
-- The workspaces of a kcp server: their URLs and how they are discovered (pkg/kcp/workspace.go). What
-- the server lists under a workspace is a parameter.
pub mod Tree
pub mod Visit
pub mod Found
pub mod Provider
use Prim.Native.String as Str
use kube_mcp_server.Base.{
  ℕ, zero, suc, String, Bool, true, false, ◌||◌, Option, none, some, List, [], ◌∷◌, ◌==◌,
  if◌then◌else◌, contains,
}
use kube_mcp_server.Base.Text.{strip_prefix, trim_last_slash}

-- strings.Index, and the texts before and behind what it finds.
unfoldable pub split_at_first : String → String → Option (String × String)
unfolding strip_prefix
split_at_first mark String.[] = elim (strip_prefix mark "") [
  | none ↦ none
  | some rest ↦ some ("", rest)
]
split_at_first mark (String.◌∷◌ c s) =
    let later = split_at_first mark s in
    elim (strip_prefix mark (String.◌∷◌ c s)) [
      | some rest ↦ some ("", rest)
      | none ↦ elim later [ none ↦ none | some parts ↦ some (String.◌∷◌ c parts.0, parts.1) ]
    ]

-- ParseServerURL: the server's base URL and the workspace.
unfoldable pub parse_server_url : String → String × String
unfolding split_at_first trim_last_slash
parse_server_url url = elim (split_at_first "/clusters/" url) [
  | none ↦ (url, "")
  | some parts ↦ (parts.0, trim_last_slash parts.1)
]

-- ExtractWorkspaceFromURL
unfoldable pub extract_workspace_from_url : String → String
unfolding parse_server_url
extract_workspace_from_url url = (parse_server_url url).1

-- ConstructWorkspaceURL
unfoldable pub construct_workspace_url : String → String → String
construct_workspace_url base workspace = Str.◌++◌ base (Str.◌++◌ "/clusters/" workspace)

-- The path of a child: its name is local to its parent.
abbrev pub full_path : String → String → String
full_path parent name = Str.◌++◌ parent (Str.◌++◌ ":" name)

-- One item of the listing: the workspaces discovered before are marked, and what goes down into the
-- child is a parameter.
abbrev pub visit_child :
    (String → List String → Option (List String))
    → String
    → String
    → List String
    → Option (List String)
visit_child down parent name discovered =
    if name == "" || contains discovered (full_path parent name)
    then some discovered
    else down (full_path parent name) (full_path parent name ∷ discovered)

abbrev pub visit_children :
    (String → List String → Option (List String))
    → String
    → List String
    → List String
    → Option (List String)
visit_children down parent [] discovered = some discovered
visit_children down parent (name ∷ names) discovered =
    elim (visit_child down parent name discovered) [
      | none ↦ none
      | some discovered' ↦ visit_children down parent names discovered'
    ]

-- DiscoverWorkspacesRecursive, to a depth: `none` is a tree deeper than that. What the server lists
-- under a workspace is `none` where no client is made or the listing fails: then it is passed over.
module _ (listing : String → Option (List String)) where
  unfoldable pub discover_workspaces_recursive : ℕ → String → List String → Option (List String)
  discover_workspaces_recursive zero parent discovered = none
  discover_workspaces_recursive (suc depth) parent discovered = elim (listing parent) [
    | none ↦ some discovered
    | some names ↦ visit_children (discover_workspaces_recursive depth) parent names discovered
  ]

  -- DiscoverAllWorkspaces
  unfoldable pub discover_all_workspaces : ℕ → String → Option (List String)
  unfolding discover_workspaces_recursive
  discover_all_workspaces depth root = discover_workspaces_recursive depth root (root ∷ [])
