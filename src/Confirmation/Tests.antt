-- ===== src/Confirmation/Tests.antt =====
-- The confirmation rules at concrete inputs.
use mathlib.Core.List.{Memᴰ}
use kube_mcp_server.Base.{
  ℕ, ◌+◌, String, ◌≡◌, refl, ◌↔◌, inl, inr, true, none, some, List, [], ◌∷◌, arith, eq_iff,
}
use kube_mcp_server.Confirmation.{
  ConfirmationRule, ToolCall, KubeCall, validate, match_tool_level_rules, match_kube_level_rules,
  merge_matched_rules, ElicitReply, action, failed, not_supported, Elicitor, check_tool_rules,
  check_kube_rules, confirmation_denied,
}
use kube_mcp_server.Confirmation.Matching.{AppliesToTool, AppliesToKube}
use kube_mcp_server.Confirmation.Gate.{LetsThrough, check_kube_rules_gate}
use kube_mcp_server.Confirmation.{is_tool_level, is_kube_level}

abbrev open_rule : ConfirmationRule
open_rule = record {
  tool = "";
  destructive = none;
  verb = "";
  kind = "";
  group = "";
  version = "";
  name = "";
  namespace = "";
  message = "";
}

abbrev destructive_rule : ConfirmationRule
destructive_rule = record open_rule { destructive = some true; message = "destructive" }

abbrev delete_rule : ConfirmationRule
delete_rule = record open_rule { verb = "delete"; message = "delete" }

abbrev secret_rule : ConfirmationRule
secret_rule = record open_rule { kind = "Secret"; message = "secret" }

abbrev rules : List ConfirmationRule
rules = destructive_rule ∷ delete_rule ∷ secret_rule ∷ []

abbrev delete_tool : ToolCall
delete_tool = record { tool_name = "resources_delete"; destructive_hint = some true }

abbrev delete_secret : KubeCall
delete_secret = record {
  verb = "delete";
  kind = "Secret";
  group = "";
  version = "v1";
  name = "token";
  namespace = "default";
}

-- A client that answers each prompt with the same action and counts the prompts.
abbrev answering : String → Elicitor ℕ
answering a message n = (action a, n + 1)

abbrev silent : Elicitor ℕ
silent message n = (failed (not_supported "client does not support elicitation"), n)

merged :
    (merge_matched_rules (match_kube_level_rules rules delete_secret) "deny").0
    ≡ "Confirmation required:\n- delete\n- secret"
unfolding merge_matched_rules match_kube_level_rules kube_mcp_server.Confirmation.matches_kube
    kube_mcp_server.Confirmation.is_kube_level kube_mcp_server.Confirmation.rejects
merged = refl

checked :
    (check_kube_rules (answering "accept") rules "deny" delete_secret 0 ≡ (none, 1))
    × (check_kube_rules (answering "decline") rules "deny" delete_secret 0
        ≡ (some confirmation_denied, 1))
    × (check_kube_rules silent rules "deny" delete_secret 0 ≡ (some confirmation_denied, 0))
    × (check_kube_rules silent rules "allow" delete_secret 0 ≡ (none, 0))
unfolding check_kube_rules kube_mcp_server.Confirmation.confirm_matched
    kube_mcp_server.Confirmation.check_confirmation kube_mcp_server.Confirmation.judge
    merge_matched_rules match_kube_level_rules kube_mcp_server.Confirmation.matches_kube
    kube_mcp_server.Confirmation.is_kube_level kube_mcp_server.Confirmation.rejects
checked = (refl, refl, refl, refl)

destructive_applies : AppliesToTool destructive_rule delete_tool
destructive_applies = record {
  sets_a_field = inr (ground arith);
  tool_fits = inl refl;
  hint_fits = inr refl;
}

secret_applies : AppliesToKube secret_rule delete_secret
secret_applies = record {
  sets_a_field = inr (inl (ground (arith, eq_iff "Secret" "")));
  verb_fits = inl refl;
  kind_fits = inr refl;
  group_fits = inl refl;
  version_fits = inl refl;
  name_fits = inl refl;
  namespace_fits = inl refl;
}

destructive_valid : validate destructive_rule ≡ none
unfolding validate is_tool_level is_kube_level
destructive_valid = refl

check_kube_rules_gate_example :
    (((r : ConfirmationRule) → Memᴰ r rules → ¬ AppliesToKube r delete_secret)
      → check_kube_rules silent rules "deny" delete_secret 0 ≡ (none, 0))
    × ((r : ConfirmationRule)
        → Memᴰ r rules
        → AppliesToKube r delete_secret
        → let asked =
            silent (merge_matched_rules (match_kube_level_rules rules delete_secret) "deny").0 0 in
          ((check_kube_rules silent rules "deny" delete_secret 0).1 ≡ asked.1)
          × ((check_kube_rules silent rules "deny" delete_secret 0).0 ≡ none
              ↔ LetsThrough "deny" asked.0))
check_kube_rules_gate_example = check_kube_rules_gate silent "deny" 0 rules delete_secret
