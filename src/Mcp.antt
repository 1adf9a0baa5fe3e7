-- ===== src/Mcp.antt =====
-- The data of the MCP server: `ServerTool`, `Tool`, `ToolAnnotations` and `Toolset` of
-- pkg/api/toolsets.go, `ServerPrompt`, `Prompt` and `PromptArgument` of pkg/api/prompts.go. Of a JSON
-- schema it holds the fields that the server writes. A handler is an element of a parameter H for
-- tools and K for prompts; a tool's `_meta` and a prompt's templates are left to the handlers.
pub mod Tools
pub mod Prompts
pub mod Reload
pub mod RateLimit
pub mod Calls
mod Tests
use kube_mcp_server.Base.{String, Bool, true, false, Option, List, deref}
use kube_mcp_server.Base.Assoc.{Assoc}

pub record ToolAnnotations : Type 0 where
  pub title : String
  pub read_only_hint : Option Bool
  pub destructive_hint : Option Bool
  pub idempotent_hint : Option Bool
  pub open_world_hint : Option Bool

pub record PropertySchema : Type 0 where
  pub kind : String
  pub description : String

pub record InputSchema : Type 0 where
  pub kind : String
  pub properties : Option (Assoc PropertySchema)

pub record Tool : Type 0 where
  pub name : String
  pub description : String
  pub annotations : ToolAnnotations
  pub input_schema : Option InputSchema

pub record ServerTool (H : Type 0) : Type 0 where
  pub tool : Tool
  pub handler : H
  pub cluster_aware : Option Bool
  pub target_list_provider : Option Bool

pub record PromptArgument : Type 0 where
  pub name : String
  pub description : String
  pub required : Bool

pub record Prompt : Type 0 where
  pub name : String
  pub title : String
  pub description : String
  pub arguments : List PromptArgument

pub record ServerPrompt (K : Type 0) : Type 0 where
  pub prompt : Prompt
  pub handler : K
  pub cluster_aware : Option Bool

-- What a toolset offers to the provider of the moment.
pub record Toolset (H K : Type 0) : Type 0 where
  pub name : String
  pub tools : List (ServerTool H)
  pub prompts : List (ServerPrompt K)

unfoldable pub is_cluster_aware : {H : Type 0} → ServerTool H → Bool
is_cluster_aware t = deref t.cluster_aware true

unfoldable pub is_target_list_provider : {H : Type 0} → ServerTool H → Bool
is_target_list_provider t = deref t.target_list_provider false

unfoldable pub prompt_is_cluster_aware : {K : Type 0} → ServerPrompt K → Bool
prompt_is_cluster_aware p = deref p.cluster_aware true
