-- ===== src/Mcp/Prompts.antt =====
-- Prompts: pkg/prompts/prompts.go, pkg/mcp/prompt_mutator.go and the prompts that
-- `collectApplicablePrompts` of pkg/mcp/mcp.go gathers.
pub mod Merged
use Prim.Native.String as Str
use kube_mcp_server.Base.{
  ℕ, String, Bool, true, false, not, ◌&&◌, ◌⊎◌, inl, inr, Option, none, some, List, [], ◌∷◌, ◌++◌,
  if◌then◌else◌, is_some, is_none, map,
}
use kube_mcp_server.Base.Assoc.{Assoc, lookup, insert}
use kube_mcp_server.Base.Text.{replace_all}
use kube_mcp_server.Mcp.{Prompt, PromptArgument, ServerPrompt, Toolset, prompt_is_cluster_aware}
use kube_mcp_server.Mcp.Tools.{Targeting}

-- A prompt of the configuration: its data and the templates of its messages.
pub record PromptTemplate : Type 0 where
  pub role : String
  pub content : String

pub record ConfiguredPrompt : Type 0 where
  pub prompt : Prompt
  pub templates : List PromptTemplate

-- A message of a result; its content has the type "text".
pub record PromptMessage : Type 0 where
  pub role : String
  pub text : String

pub record PromptCallResult : Type 0 where
  pub description : String
  pub messages : List PromptMessage
  pub error : Option String

-- What a handler makes of the arguments: an error or a result.
abbrev pub PromptHandler : Type 0
PromptHandler = Assoc String → String ⊎ PromptCallResult

abbrev pub placeholder : PromptArgument → String
placeholder arg = Str.◌++◌ "{{" (Str.◌++◌ arg.name "}}")

-- One round: the argument's placeholder is filled, or removed if it is optional and not given.
unfoldable pub substitute_one : String → PromptArgument → Option String → String
substitute_one content arg (some value) = replace_all content (placeholder arg) value
substitute_one content arg none =
    if not arg.required then replace_all content (placeholder arg) "" else content

unfoldable pub substitute_arguments : String → List PromptArgument → Assoc String → String
unfolding substitute_one lookup
substitute_arguments content [] args = content
substitute_arguments content (arg ∷ rest) args =
    substitute_arguments (substitute_one content arg (lookup arg.name args)) rest args

-- The first required argument that is missing.
unfoldable pub missing_argument : List PromptArgument → Assoc String → Option String
unfolding lookup
missing_argument [] args = none
missing_argument (arg ∷ rest) args =
    let later = missing_argument rest args in
    if arg.required && is_none (lookup arg.name args) then some arg.name else later

abbrev pub render : List PromptArgument → Assoc String → PromptTemplate → PromptMessage
render prompt_args args template = record {
  role = template.role;
  text = substitute_arguments template.content prompt_args args;
}

unfoldable pub create_prompt_handler : ConfiguredPrompt → PromptHandler
unfolding missing_argument substitute_arguments
create_prompt_handler p args = elim (missing_argument p.prompt.arguments args) [
  | some name ↦ inl (Str.◌++◌ "required argument '" (Str.◌++◌ name "' is missing"))
  | none ↦ inr (record {
    description = p.prompt.description;
    messages = map (render p.prompt.arguments args) p.templates;
    error = none;
  })
]

unfoldable pub to_server_prompts : List ConfiguredPrompt → List (ServerPrompt PromptHandler)
unfolding create_prompt_handler
to_server_prompts [] = []
to_server_prompts (p ∷ ps) =
    record { prompt = p.prompt; handler = create_prompt_handler p; cluster_aware = none }
    ∷ to_server_prompts ps

module _ {K : Type 0} where
  -- The loop that fills the map of overrides; a later prompt replaces an earlier one of its name.
  unfoldable pub override_map :
      List (ServerPrompt K) → Assoc (ServerPrompt K) → Assoc (ServerPrompt K)
  unfolding insert
  override_map [] m = m
  override_map (p ∷ ps) m = override_map ps (insert p.prompt.name p m)

  unfoldable pub skip_overridden :
      Assoc (ServerPrompt K) → List (ServerPrompt K) → List (ServerPrompt K)
  unfolding lookup
  skip_overridden m [] = []
  skip_overridden m (p ∷ ps) =
      let rest = skip_overridden m ps in if is_some (lookup p.prompt.name m) then rest else p ∷ rest

  unfoldable pub merge_prompts :
      List (ServerPrompt K) → List (ServerPrompt K) → List (ServerPrompt K)
  unfolding override_map skip_overridden
  merge_prompts base override = skip_overridden (override_map override []) base ++ override

  unfoldable pub with_prompt_target_parameter : Targeting → ServerPrompt K → ServerPrompt K
  unfolding prompt_is_cluster_aware
  with_prompt_target_parameter p s =
      if not (prompt_is_cluster_aware s)
      then s
      else if p.is_multi_target
      then record s {
        prompt = record (s.prompt) {
          arguments =
              s.prompt.arguments
              ++ (record {
                name = p.parameter_name;
                description = Str.◌++◌ "Optional parameter selecting which " (
                    Str.◌++◌ p.parameter_name (
                      Str.◌++◌ " to run the prompt in. Defaults to "
                        (Str.◌++◌ p.default_target " if not set")));
                required = false;
              }
                  ∷ []);
        };
      }
      else s

module _ {H : Type 0} where
  unfoldable pub collect_toolset_prompts :
      Targeting → List (Toolset H PromptHandler) → List (ServerPrompt PromptHandler)
  unfolding with_prompt_target_parameter
  collect_toolset_prompts p [] = []
  collect_toolset_prompts p (s ∷ ss) =
      map (with_prompt_target_parameter p) s.prompts ++ collect_toolset_prompts p ss

  unfoldable pub collect_applicable_prompts :
      Targeting
      → List (Toolset H PromptHandler)
      → List ConfiguredPrompt
      → List (ServerPrompt PromptHandler)
  unfolding collect_toolset_prompts to_server_prompts merge_prompts
  collect_applicable_prompts p toolsets configured =
      merge_prompts (collect_toolset_prompts p toolsets) (to_server_prompts configured)
