-- ===== src/Mcp/Calls.antt =====
-- The call of a tool: the handler that `ServerToolToGoSdkTool` of pkg/mcp/gosdk.go makes, the results
-- of `NewTextResult`, `NewStructuredResult` and `ensureStructuredObject` of pkg/mcp/mcp.go, the
-- elicitor of pkg/mcp/elicit.go, and the handler of a prompt in pkg/mcp/prompts_gosdk.go. The decoding
-- of JSON, the SDK's sessions, the provider and the tool's own handler are parameters.
pub mod Gate
pub mod Credentials
pub mod Headers
use Prim.Native.String as Str
use kube_mcp_server.Base.{
  String, Bool, true, false, ◌&&◌, ◌⊎◌, inl, inr, Option, none, some, List, [], ◌∷◌, ◌==◌,
  if◌then◌else◌, deref, map, is_some,
}
use kube_mcp_server.Base.Text.{contains_text}
use kube_mcp_server.Base.Assoc.{Assoc, lookup}
use kube_mcp_server.Confirmation.{
  ConfirmationRule, ToolCall, CheckError, confirmation_denied, elicit_error, ElicitError,
  not_supported, other, ElicitReply, action, failed, Elicitor, check_tool_rules,
}
use kube_mcp_server.Mcp.{Tool, ServerTool, Prompt, ServerPrompt}
use kube_mcp_server.Mcp.Prompts.{PromptMessage, PromptCallResult}

-- A value of JSON, as far as the server looks into it: a text, a list (which may be nil), or another.
pub data Json (J : Type 0) : Type 0 where
  text : String → Json J
  items : J → Json J
  nil_items : Json J
  object : J → Json J

pub record ToolCallRequest (J : Type 0) : Type 0 where
  pub name : String
  pub arguments : Assoc (Json J)

-- The parameters of a request; the arguments are raw JSON.
pub data RequestParams : Type 0 where
  call_tool : String → String → RequestParams
  other_params : RequestParams

pub data CallError : Type 0 where
  invalid_params : CallError
  bad_arguments : String → CallError
  failed_with : String → CallError

abbrev pub request_of :
    {J : Type 0} → String → String ⊎ Assoc (Json J) → CallError ⊎ ToolCallRequest J
request_of name (inl e) = inl (bad_arguments e)
request_of name (inr arguments) = inr (record { name = name; arguments = arguments })

-- GoSdkToolCallParamsToToolCallRequest: no arguments at all are no arguments.
unfoldable pub params_to_tool_call_request :
    {J : Type 0}
    → (String → String ⊎ Assoc (Json J))
    → String
    → String
    → CallError ⊎ ToolCallRequest J
params_to_tool_call_request unmarshal name raw =
    if raw == ""
    then inr (record { name = name; arguments = [] })
    else request_of name (unmarshal raw)

unfoldable pub to_tool_call_request :
    {J : Type 0}
    → (String → String ⊎ Assoc (Json J))
    → RequestParams
    → CallError ⊎ ToolCallRequest J
unfolding params_to_tool_call_request
to_tool_call_request unmarshal (call_tool name raw) = params_to_tool_call_request unmarshal name raw
to_tool_call_request unmarshal other_params = inl invalid_params

abbrev pub text_or : {J : Type 0} → String → Option (Json J) → String
text_or default (some (text s)) = s
text_or default _ = default

-- GetString
unfoldable pub get_string : {J : Type 0} → ToolCallRequest J → String → String → String
unfolding lookup
get_string request key default_value = text_or default_value (lookup key request.arguments)

-- A tool's own result; `error` is one to send back to the model.
pub record ToolCallResult (J : Type 0) : Type 0 where
  pub content : String
  pub structured_content : Option (Json J)
  pub error : Option String

-- The SDK's result. A list in structured content is wrapped.
pub data Structured (J : Type 0) : Type 0 where
  as_is wrapped_items : Json J → Structured J

pub record CallToolResult (J : Type 0) : Type 0 where
  pub is_error : Bool
  pub content_text : String
  pub structured : Option (Structured J)

unfoldable pub new_text_result : {J : Type 0} → String → Option String → CallToolResult J
new_text_result content (some e) = record { is_error = true; content_text = e; structured = none }
new_text_result content none = record {
  is_error = false;
  content_text = content;
  structured = none;
}

unfoldable pub ensure_structured_object : {J : Type 0} → Json J → Option (Structured J)
ensure_structured_object nil_items = none
ensure_structured_object (items j) = some (wrapped_items (items j))
ensure_structured_object v = some (as_is v)

abbrev pub structured_of : {J : Type 0} → Option (Json J) → Option (Structured J)
structured_of none = none
structured_of (some v) = ensure_structured_object v

unfoldable pub new_structured_result :
    {J : Type 0} → String → Option (Json J) → Option String → CallToolResult J
unfolding ensure_structured_object
new_structured_result content structured (some e) = record {
  is_error = true;
  content_text = e;
  structured = none;
}
new_structured_result content structured none = record {
  is_error = false;
  content_text = content;
  structured = structured_of structured;
}

-- Error() of the errors of the confirmation.
abbrev pub elicit_text : ElicitError → String
elicit_text (not_supported e) = e
elicit_text (other e) = e

abbrev pub confirmation_text : CheckError → String
confirmation_text confirmation_denied = "action requires confirmation"
confirmation_text (elicit_error e) = elicit_text e

-- What a session answers when it is asked.
pub data SessionReply : Type 0 where
  session_answer : String → SessionReply
  session_error : String → SessionReply

unfoldable pub session_reply : SessionReply → ElicitReply
unfolding contains_text
session_reply (session_answer a) = action a
session_reply (session_error e) =
    if contains_text e "does not support" && contains_text e "elicitation"
    then failed (not_supported (Str.◌++◌ "elicitation not supported: " e))
    else failed (other e)

-- What the server is built on: the session in the context, the decoding of arguments, and the
-- provider's parameter name, default target and clients.
pub record Surroundings (J X K W : Type 0) : Type 0 where
  pub session : X → Option (String → W → SessionReply × W)
  pub unmarshal : String → String ⊎ Assoc (Json J)
  pub rules : W → List ConfirmationRule
  pub fallback : W → String
  pub target_parameter_name : W → String
  pub default_target : W → String
  pub get_derived_kubernetes : X → String → W → (String ⊎ K) × W

-- What a tool's handler is given.
pub record ToolHandlerParams (J X K : Type 0) : Type 0 where
  pub ctx : X
  pub client : K
  pub request : ToolCallRequest J

abbrev pub Handler : (J X K W : Type 0) → Type 0
Handler J X K W = ToolHandlerParams J X K → W → (String ⊎ ToolCallResult J) × W

module _ {J X K W : Type 0} (env : Surroundings J X K W) where
  -- sessionElicitor.Elicit
  unfoldable pub session_elicit : X → Elicitor W
  unfolding session_reply
  session_elicit ctx message w = elim (env.session ctx) [
    | none ↦ (failed (other "no MCP session found in context"), w)
    | some ask ↦ let (reply, w') = ask message w in (session_reply reply, w')
  ]

  abbrev pub Outcome : Type 0
  Outcome = (CallError ⊎ CallToolResult J) × W

  abbrev pub finish : (String ⊎ ToolCallResult J) × W → Outcome
  finish (inl e, w) = (inl (failed_with e), w)
  finish (inr r, w) = (inr (new_structured_result r.content r.structured_content r.error), w)

  -- With the client for the target, or the provider's error.
  abbrev pub run_handler : Handler J X K W → X → ToolCallRequest J → (String ⊎ K) × W → Outcome
  run_handler handler ctx request (inl e, w) = (inl (failed_with e), w)
  run_handler handler ctx request (inr client, w) =
      finish (handler (record { ctx = ctx; client = client; request = request }) w)

  -- With the verdict of the confirmation rules.
  abbrev pub after_confirmation :
      Handler J X K W → X → ToolCallRequest J → Option CheckError × W → Outcome
  after_confirmation handler ctx request (some e, w) =
      (inr (new_text_result "" (some (confirmation_text e))), w)
  after_confirmation handler ctx request (none, w) = run_handler handler ctx request (
      env.get_derived_kubernetes ctx
        (get_string request (env.target_parameter_name w) (env.default_target w)) w)

  abbrev pub call_of : Tool → ToolCall
  call_of tool = record {
    tool_name = tool.name;
    destructive_hint = tool.annotations.destructive_hint;
  }

  abbrev pub confirm : Tool → X → W → Option CheckError × W
  confirm tool ctx w =
      check_tool_rules (session_elicit ctx) (env.rules w) (env.fallback w) (call_of tool) w

  abbrev pub with_request : Tool → Handler J X K W → X → CallError ⊎ ToolCallRequest J → W → Outcome
  with_request tool handler ctx (inl e) w = (inl e, w)
  with_request tool handler ctx (inr request) w =
      after_confirmation handler ctx request (confirm tool ctx w)

  -- The handler that is registered for a tool.
  unfoldable pub tool_handler : Tool → Handler J X K W → X → RequestParams → W → Outcome
  unfolding to_tool_call_request check_tool_rules session_elicit get_string new_text_result
  tool_handler tool handler ctx params w =
      with_request tool handler ctx (to_tool_call_request env.unmarshal params) w

  -- The handler of a prompt: the target is the argument under the parameter's name, or the empty
  -- text; the prompt's own error is the call's.
  abbrev pub PromptHandler : Type 0
  PromptHandler = X → K → Assoc String → W → (String ⊎ PromptCallResult) × W

  abbrev pub finish_prompt : (String ⊎ PromptCallResult) × W → (String ⊎ PromptCallResult) × W
  finish_prompt (inl e, w) = (inl e, w)
  finish_prompt (inr r, w) = elim r.error [ none ↦ (inr r, w) | some e ↦ (inl e, w) ]

  abbrev pub run_prompt :
      PromptHandler → X → Assoc String → (String ⊎ K) × W → (String ⊎ PromptCallResult) × W
  run_prompt handler ctx arguments (inl e, w) =
      (inl (Str.◌++◌ "failed to get kubernetes client: " e), w)
  run_prompt handler ctx arguments (inr client, w) = finish_prompt (handler ctx client arguments w)

  unfoldable pub prompt_handler :
      PromptHandler → X → Option (Assoc String) → W → (String ⊎ PromptCallResult) × W
  unfolding lookup
  prompt_handler handler ctx arguments w =
      let given = deref arguments [] in
      let target = deref (lookup (env.target_parameter_name w) given) "" in
      run_prompt handler ctx given (env.get_derived_kubernetes ctx target w)
