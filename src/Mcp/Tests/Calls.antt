-- ===== src/Mcp/Tests/Calls.antt =====
-- Calls of a destructive tool. A world counts the prompts and the clients; the session declines.
use kube_mcp_server.Base.{
  ℕ, suc, true, false, inl, inr, none, some, List, [], ◌∷◌, ◌≡◌, refl, arith, ◌==◌, if◌then◌else◌,
  eq_iff,
}
use mathlib.Core.List.{Memᴰ}
use kube_mcp_server.Confirmation.{
  ConfirmationRule, action, CheckError, confirm_matched, match_tool_level_rules,
}
use kube_mcp_server.Confirmation.Matching.{AppliesToTool}
use kube_mcp_server.Confirmation.Gate.{LetsThrough}
use kube_mcp_server.Mcp.{Tool}
use kube_mcp_server.Mcp.Calls.{
  text, items, call_tool, to_tool_call_request, wrapped_items, new_text_result,
  new_structured_result, session_answer, Surroundings, Handler, call_of, tool_handler,
  confirmation_text, session_elicit,
}
use kube_mcp_server.Mcp.Calls.Gate.{Gated, tool_handler-Gated, declined_call-stops}
use kube_mcp_server.Mcp.Calls.Headers.{auth_header_propagation_middleware}

abbrev deletion : Tool
deletion = record {
  name = "pods_delete";
  description = "";
  annotations = record {
    title = "";
    read_only_hint = none;
    destructive_hint = some true;
    idempotent_hint = none;
    open_world_hint = none;
  };
  input_schema = none;
}

abbrev surroundings : List ConfirmationRule → Surroundings ℕ ℕ ℕ ℕ
surroundings rules = record {
  session = λ x. some (λ message w. (session_answer "decline", suc w));
  unmarshal = λ raw. inr (("context", text raw) ∷ []);
  rules = λ w. rules;
  fallback = λ w. "allow";
  target_parameter_name = λ w. "context";
  default_target = λ w. "";
  get_derived_kubernetes =
      λ x t w. if t == "dev" then (inr 5, suc (suc w)) else (inl "no target", w);
}

abbrev echo : Handler ℕ ℕ ℕ ℕ
echo p w =
    (inr (record { content = "done"; structured_content = some (items p.client); error = none }), w)

-- With no rule the tool runs on the target that the call names.
served : tool_handler (surroundings []) deletion echo 0 (call_tool "pods_delete" "dev") 0 ≡ (
  inr (record {
    is_error = false;
    content_text = "done";
    structured = some (wrapped_items (items 5));
  }),
  2,
)
unfolding tool_handler new_structured_result confirm_matched match_tool_level_rules
served = refl

tool_handler-Gated_example :
    Gated (surroundings []) deletion 0 (call_tool "pods_delete" "dev") 0 (λ handler.
      tool_handler (surroundings []) deletion handler 0 (call_tool "pods_delete" "dev") 0)
tool_handler-Gated_example =
    tool_handler-Gated (surroundings []) deletion 0 (call_tool "pods_delete" "dev") 0

abbrev asks : ConfirmationRule
asks = record {
  tool = "pods_delete";
  destructive = none;
  verb = "";
  kind = "";
  group = "";
  version = "";
  name = "";
  namespace = "";
  message = "Delete?";
}

asks-applies : AppliesToTool asks (call_of (surroundings (asks ∷ [])) deletion)
asks-applies = record {
  sets_a_field = inl (λ e. ground (arith, eq_iff "pods_delete" "", e));
  tool_fits = inr refl;
  hint_fits = inl refl;
}

declined : ¬ LetsThrough "allow" (action "decline")
declined e = ground (arith, eq_iff "decline" "accept", e)

declined_call-stops_example :
    (e : CheckError) × (tool_handler
        (surroundings (asks ∷ []))
        deletion
        echo
        0
        (call_tool "pods_delete" "dev")
        0
      ≡ (inr (new_text_result "" (some (confirmation_text e))), 1))
unfolding to_tool_call_request session_elicit
declined_call-stops_example =
    declined_call-stops (surroundings (asks ∷ [])) deletion echo 0 (call_tool "pods_delete" "dev") 0
      (record { name = "pods_delete"; arguments = ("context", text "dev") ∷ [] }) asks
      (action "decline", 1) refl (Memᴰ.head refl) asks-applies refl declined

-- The standard header wins over the custom one.
forwarded :
    (auth_header_propagation_middleware {S = ℕ}
      (λ ctx req. ctx.values.authorization)
      (record { values = record { authorization = none; user_agent = none }; session = none })
      (record {
        header = some (λ name. if name == "Authorization" then "Bearer a" else "Bearer b");
        session = none;
        client_info = none;
      }))
    ≡ some "Bearer a"
unfolding auth_header_propagation_middleware
forwarded = refl
