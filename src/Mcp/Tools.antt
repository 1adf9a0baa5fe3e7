-- ===== src/Mcp/Tools.antt =====
-- Which tools the server offers, and in which form: pkg/mcp/tool_filter.go, pkg/mcp/tool_mutator.go,
-- `isToolApplicable` and `collectApplicableTools` of pkg/mcp/mcp.go. The schema behind a tool's
-- pointer is a value here: every call of `GetTools` builds it anew.
pub mod Exposed
pub mod Targets
use Prim.Native.String as Str
use kube_mcp_server.Base.{
  String, Bool, true, false, not, ◌&&◌, Option, none, some, List, [], ◌∷◌, ◌++◌, ◌==◌, ◌!=◌,
  if◌then◌else◌, deref, contains,
}
use kube_mcp_server.Base.Assoc.{Assoc, lookup, insert}
use kube_mcp_server.Base.Text.{capitalize_first}
use kube_mcp_server.Mcp.{
  PropertySchema, InputSchema, Tool, ServerTool, Toolset, is_cluster_aware, is_target_list_provider,
}

pub record ToolOverride : Type 0 where
  pub description : String

-- The settings that decide about tools. A nil list is `none`.
pub record ToolConfig : Type 0 where
  pub read_only : Bool
  pub disable_destructive : Bool
  pub enabled_tools : Option (List String)
  pub disabled_tools : Option (List String)
  pub tool_overrides : Option (Assoc ToolOverride)

-- What the provider says about its targets.
pub record Targeting : Type 0 where
  pub default_target : String
  pub parameter_name : String
  pub is_multi_target : Bool

abbrev pub lists : Option (List String) → Bool → String → Bool
lists none unset name = unset
lists (some names) unset name = contains names name

unfoldable pub is_tool_applicable : {H : Type 0} → ToolConfig → ServerTool H → Bool
is_tool_applicable c t =
    if c.read_only && not (deref t.tool.annotations.read_only_hint false)
    then false
    else if c.disable_destructive && deref t.tool.annotations.destructive_hint false
    then false
    else if not (lists c.enabled_tools true t.tool.name)
    then false
    else if lists c.disabled_tools false t.tool.name
    then false
    else true

-- KubeConfigTargetParameterName
abbrev pub context_parameter : String
context_parameter = "context"

unfoldable pub should_include_target_list_tool : {H : Type 0} → String → Bool → ServerTool H → Bool
unfolding is_target_list_provider
should_include_target_list_tool target_name is_multi_target t =
    if not (is_target_list_provider t)
    then true
    else if not is_multi_target
    then false
    else if t.tool.name == "configuration_contexts_list" && target_name != context_parameter
    then false
    else if t.tool.name == Str.◌++◌ target_name "_list" && target_name == context_parameter
    then false
    else true

module _ {H : Type 0} where
  unfoldable pub composite_filter : List (ServerTool H → Bool) → ServerTool H → Bool
  composite_filter [] t = true
  composite_filter (f ∷ fs) t =
      let rest = composite_filter fs t in if not (f t) then false else rest

  unfoldable pub compose_mutators : List (ServerTool H → ServerTool H) → ServerTool H → ServerTool H
  compose_mutators [] t = t
  compose_mutators (m ∷ ms) t = compose_mutators ms (m t)

abbrev pub create_target_property : String → String → PropertySchema
create_target_property default_cluster target_name = record {
  kind = "string";
  description = Str.◌++◌ "Optional parameter selecting which " (
      Str.◌++◌ target_name
        (Str.◌++◌ " to run the tool in. Defaults to " (Str.◌++◌ default_cluster " if not set")));
}

-- The schema of a cluster-aware tool, with an object and a map of properties where there was none.
unfoldable pub with_target_property : Targeting → Option InputSchema → InputSchema
unfolding insert
with_target_property p schema =
    let s = deref schema (record { kind = "object"; properties = none }) in
    let properties = deref s.properties [] in
    record s {
      properties = some (
          if p.is_multi_target
          then insert p.parameter_name (create_target_property p.default_target p.parameter_name)
              properties
          else properties);
    }

module _ {H : Type 0} where
  unfoldable pub with_target_parameter : Targeting → ServerTool H → ServerTool H
  unfolding is_cluster_aware with_target_property
  with_target_parameter p t = if not (is_cluster_aware t) then t else record t {
    tool = record (t.tool) { input_schema = some (with_target_property p t.tool.input_schema) };
  }

  -- The parameter gives the handler that lists the targets of the parameter's name, with the default.
  unfoldable pub with_target_list_tool :
      (String → String → H) → Targeting → ServerTool H → ServerTool H
  with_target_list_tool list_handler p t = if t.tool.name != "targets_list" then t else record t {
    tool = record (t.tool) {
      name = Str.◌++◌ p.parameter_name "_list";
      description =
          Str.◌++◌ "List all available "
            (Str.◌++◌ p.parameter_name "s that can be targeted by tools");
      annotations = record (t.tool.annotations) {
        title = Str.◌++◌ (capitalize_first p.parameter_name) " List";
      };
    };
    handler = list_handler p.parameter_name p.default_target;
  }

  -- The entry of the map under the tool's name, if there is one.
  abbrev pub describe : ServerTool H → Option ToolOverride → ServerTool H
  describe t none = t
  describe t (some o) =
      if o.description != ""
      then record t { tool = record (t.tool) { description = o.description } }
      else t

  unfoldable pub with_tool_overrides : Option (Assoc ToolOverride) → ServerTool H → ServerTool H
  unfolding lookup
  with_tool_overrides none t = t
  with_tool_overrides (some overrides) t = describe t (lookup t.tool.name overrides)

  -- The filter and the mutator of the moment.
  unfoldable pub tool_filter : ToolConfig → Targeting → ServerTool H → Bool
  unfolding composite_filter is_tool_applicable should_include_target_list_tool
  tool_filter c p = composite_filter (
      is_tool_applicable c
      ∷ should_include_target_list_tool p.parameter_name p.is_multi_target
      ∷ [])

  unfoldable pub tool_mutator :
      (String → String → H) → ToolConfig → Targeting → ServerTool H → ServerTool H
  unfolding compose_mutators with_target_parameter with_target_list_tool with_tool_overrides
  tool_mutator list_handler c p = compose_mutators (
      with_target_parameter p
      ∷ with_target_list_tool list_handler p
      ∷ with_tool_overrides c.tool_overrides
      ∷ [])

  -- The inner loop: a tool is mutated first and kept if the filter then takes it.
  unfoldable pub keep_mutated :
      (ServerTool H → ServerTool H)
      → (ServerTool H → Bool)
      → List (ServerTool H)
      → List (ServerTool H)
  keep_mutated mutator filter [] = []
  keep_mutated mutator filter (t ∷ ts) =
      let rest = keep_mutated mutator filter ts in
      if filter (mutator t) then mutator t ∷ rest else rest

module _ {H K : Type 0} where
  unfoldable pub collect_from :
      (ServerTool H → ServerTool H)
      → (ServerTool H → Bool)
      → List (Toolset H K)
      → List (ServerTool H)
  unfolding keep_mutated
  collect_from mutator filter [] = []
  collect_from mutator filter (s ∷ ss) =
      keep_mutated mutator filter s.tools ++ collect_from mutator filter ss

  unfoldable pub collect_applicable_tools :
      (String → String → H) → ToolConfig → Targeting → List (Toolset H K) → List (ServerTool H)
  unfolding tool_filter tool_mutator collect_from
  collect_applicable_tools list_handler c p toolsets =
      collect_from (tool_mutator list_handler c p) (tool_filter c p) toolsets
