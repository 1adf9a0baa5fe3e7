-- ===== src/Mcp/Tests.antt =====
-- The exposed tools and prompts at a concrete toolset. A handler is a number.
mod Reloads
mod Calls
mod Credentials
use Prim.Native.String as Str
use mathlib.Core.List.{Memᴰ}
use kube_mcp_server.Base.{
  ℕ, String, ◌≡◌, refl, ◌≢◌, ◌↔◌, ◌⊎◌, inl, inr, Bool, true, false, ◌&&◌, Option, none, some, List,
  [], ◌∷◌, ◌==◌, if◌then◌else◌, map,
}
use kube_mcp_server.Base.Assoc.{Assoc, lookup}
use kube_mcp_server.Base.Text.{contains_text}
use kube_mcp_server.Mcp.{
  PropertySchema, Tool, ToolAnnotations, ServerTool, Toolset, Prompt, PromptArgument, ServerPrompt,
  is_cluster_aware,
}
use kube_mcp_server.Mcp.Tools.{
  ToolConfig, Targeting, tool_mutator, collect_applicable_tools, create_target_property,
}
use kube_mcp_server.Mcp.Tools.Exposed.{
  IsOffered, IsPermitted, FitsTargets, collect_applicable_tools_iff,
}
use kube_mcp_server.Mcp.Tools.Targets.{
  schema_properties, tool_mutator-lookup, read_only_exposes, target_lists_exclude,
}
use kube_mcp_server.Mcp.Prompts.{
  ConfiguredPrompt, PromptTemplate, PromptHandler, PromptCallResult, create_prompt_handler,
  merge_prompts, to_server_prompts, substitute_arguments,
}
use kube_mcp_server.Mcp.Prompts.Merged.{
  merge_prompts_iff, create_prompt_handler-fails_iff, substitute_arguments-plain,
}

abbrev annotations : Option Bool → Option Bool → ToolAnnotations
annotations read_only destructive = record {
  title = "";
  read_only_hint = read_only;
  destructive_hint = destructive;
  idempotent_hint = none;
  open_world_hint = none;
}

abbrev sample : String → ToolAnnotations → Option Bool → ServerTool ℕ
sample name hints lists_targets = record {
  tool = record { name = name; description = ""; annotations = hints; input_schema = none };
  handler = 1;
  cluster_aware = none;
  target_list_provider = lists_targets;
}

abbrev pods_list : ServerTool ℕ
pods_list = sample "pods_list" (annotations (some true) none) none

abbrev pods_delete : ServerTool ℕ
pods_delete = sample "pods_delete" (annotations (some false) (some true)) none

abbrev contexts_list : ServerTool ℕ
contexts_list = sample "configuration_contexts_list" (annotations (some true) none) (some true)

abbrev targets_list : ServerTool ℕ
targets_list = sample "targets_list" (annotations (some true) none) (some true)

abbrev core : Toolset ℕ PromptHandler
core = record {
  name = "core";
  tools = pods_delete ∷ pods_list ∷ contexts_list ∷ targets_list ∷ [];
  prompts = [];
}

abbrev read_only : ToolConfig
read_only = record {
  read_only = true;
  disable_destructive = false;
  enabled_tools = none;
  disabled_tools = some ("events_list" ∷ []);
  tool_overrides = none;
}

abbrev contexts : Targeting
contexts = record { default_target = "dev"; parameter_name = "context"; is_multi_target = true }

-- The handler that lists targets is 9.
abbrev lister : String → String → ℕ
lister parameter target = 9

abbrev exposed : ServerTool ℕ → ServerTool ℕ
exposed t = tool_mutator lister read_only contexts t

names_exposed :
    map (λ t. ServerTool.tool t) (collect_applicable_tools lister read_only contexts (core ∷ []))
    ≡ (exposed pods_list).tool ∷ (exposed contexts_list).tool ∷ []
unfolding collect_applicable_tools
names_exposed = refl

contexts_exposed :
    Memᴰ (exposed contexts_list) (collect_applicable_tools lister read_only contexts (core ∷ []))
unfolding collect_applicable_tools
contexts_exposed = Memᴰ.tail (Memᴰ.head refl)

still_lists : (exposed contexts_list).target_list_provider ≡ some true
unfolding tool_mutator
still_lists = refl

keeps_name : (exposed contexts_list).tool.name ≡ "configuration_contexts_list"
unfolding tool_mutator
keeps_name = refl

aware : is_cluster_aware pods_list ≡ true
unfolding is_cluster_aware
aware = refl

collect_applicable_tools_iff_example :
    Memᴰ (exposed contexts_list) (collect_applicable_tools lister read_only contexts (core ∷ []))
    ↔ ((raw : ServerTool ℕ) × IsOffered (core ∷ []) raw
        × (exposed contexts_list ≡ tool_mutator lister read_only contexts raw)
        × IsPermitted read_only (exposed contexts_list)
        × FitsTargets contexts (exposed contexts_list))
collect_applicable_tools_iff_example =
    collect_applicable_tools_iff lister read_only contexts (core ∷ []) (exposed contexts_list)

read_only_exposes_example :
    (raw : ServerTool ℕ) × IsOffered (core ∷ []) raw
    × (raw.tool.annotations.read_only_hint ≡ some true)
    × (((exposed contexts_list).handler ≡ raw.handler)
        ⊎ ((raw.tool.name ≡ "targets_list") × ((exposed contexts_list).handler ≡ 9)))
read_only_exposes_example =
    read_only_exposes lister read_only contexts (core ∷ []) (exposed contexts_list) refl
      contexts_exposed

abbrev namespace_argument : PromptArgument
namespace_argument = record { name = "namespace"; description = ""; required = true }

abbrev troubleshoot : ConfiguredPrompt
troubleshoot = record {
  prompt = record {
    name = "troubleshoot";
    title = "";
    description = "Look around";
    arguments = namespace_argument ∷ [];
  };
  templates = record { role = "user"; content = "Look at {{namespace}}, please" } ∷ [];
}

rendered :
    create_prompt_handler troubleshoot (("namespace", "dev") ∷ [])
    ≡ inr (record {
      description = "Look around";
      messages = record { role = "user"; text = "Look at dev, please" } ∷ [];
      error = none;
    })
unfolding create_prompt_handler kube_mcp_server.Base.Text.replace_from
rendered = refl

no_braces : contains_text "Look around" "{{" ≡ false
unfolding contains_text
no_braces = refl

abbrev built_in : ServerPrompt PromptHandler
built_in = record {
  prompt = record (troubleshoot.prompt) { description = "Built in" };
  handler = λ args. inl "built in";
  cluster_aware = none;
}
