-- ===== src/Confirmation/Gate.antt =====
-- When a call gets past the confirmation rules (pkg/confirmation/confirmation.go).
use mathlib.Core.List.{Memᴰ}
use kube_mcp_server.Base.{String, ◌≡◌, refl, ap, ◌≢◌, ◌↔◌, none, List, [], ◌∷◌, arith, eq_iff}
use kube_mcp_server.Confirmation.{
  ConfirmationRule, ToolCall, KubeCall, match_tool_level_rules, match_kube_level_rules,
  merge_matched_rules, ElicitReply, action, failed, not_supported, other, Elicitor, judge,
  check_confirmation, confirm_matched, check_tool_rules, check_kube_rules,
}
use kube_mcp_server.Confirmation.Matching.{
  AppliesToTool, AppliesToKube, match_tool_level_rules_iff, match_kube_level_rules_iff,
}

-- The replies that let a call through: the user accepts, or nobody can be asked and the fallback
-- is not to deny.
abbrev pub LetsThrough : String → ElicitReply → Type 0
LetsThrough fallback (action a) = a ≡ "accept"
LetsThrough fallback (failed (not_supported e)) = fallback ≢ "deny"
LetsThrough fallback (failed (other e)) = ⊥

judge-none_iff :
    (fallback : String) (reply : ElicitReply)
    → (judge fallback reply ≡ none) ↔ LetsThrough fallback reply
unfolding judge
judge-none_iff fallback (action a) =
    (ground (arith, eq_iff a "accept"), ground (arith, eq_iff a "accept"))
judge-none_iff fallback (failed (not_supported e)) =
    (ground (arith, eq_iff fallback "deny"), ground (arith, eq_iff fallback "deny"))
judge-none_iff fallback (failed (other e)) = (ground arith, ground arith)

empty_of_no_member {ℓ} : {A : Type ℓ} (xs : List A) → ((a : A) → ¬ Memᴰ a xs) → xs ≡ []
empty_of_no_member [] h = refl
empty_of_no_member (x ∷ xs) h = absurd (h x (Memᴰ.head refl))

module _ {W : Type 0} (elicit : Elicitor W) (fallback : String) (w : W) where
  -- No match: the call goes on, and the user is not asked.
  confirm_matched_nil :
      (rs : List ConfirmationRule) → rs ≡ [] → confirm_matched elicit rs fallback w ≡ (none, w)
  unfolding confirm_matched
  confirm_matched_nil rs e = rw e

  -- A match: exactly one prompt, whose reply decides.
  confirm_matched_mem :
      (rs : List ConfirmationRule) (r : ConfirmationRule)
      → Memᴰ r rs
      → confirm_matched elicit rs fallback w ≡ (
        judge fallback (elicit (merge_matched_rules rs fallback).0 w).0,
        (elicit (merge_matched_rules rs fallback).0 w).1,
      )
  unfolding confirm_matched check_confirmation merge_matched_rules
  confirm_matched_mem [] r m = elim m [ ]
  confirm_matched_mem (q ∷ []) r m = refl
  confirm_matched_mem (p ∷ q ∷ rs) r m = refl

  -- A tool call that no rule applies to is let through without a prompt; one that a rule applies to
  -- is put to the user once, with the merged message, and is let through exactly if the user
  -- accepts, or cannot be asked while the fallback is not "deny".
  pub check_tool_rules_gate :
      (rules : List ConfirmationRule) (c : ToolCall)
      → (((r : ConfirmationRule) → Memᴰ r rules → ¬ AppliesToTool r c)
          → check_tool_rules elicit rules fallback c w ≡ (none, w))
        × ((r : ConfirmationRule)
            → Memᴰ r rules
            → AppliesToTool r c
            → let asked =
                elicit (merge_matched_rules (match_tool_level_rules rules c) fallback).0 w in
              ((check_tool_rules elicit rules fallback c w).1 ≡ asked.1)
              × ((check_tool_rules elicit rules fallback c w).0 ≡ none
                  ↔ LetsThrough fallback asked.0))
  unfolding check_tool_rules
  check_tool_rules_gate rules c = (
    λ free. confirm_matched_nil _ (
        empty_of_no_member _ (λ r m.
          let (listed, applies) = (match_tool_level_rules_iff rules c r).0 m in
          free r listed applies)),
    λ r listed applies.
        let e =
          confirm_matched_mem _ r ((match_tool_level_rules_iff rules c r).1 (listed, applies)) in
        (ap (λ p. p.1) e, rw e (judge-none_iff fallback _)),
  )

  -- A request to the Kubernetes API that no rule applies to is let through without a prompt; one that
  -- a rule applies to is put to the user once, with the merged message, and is let through exactly
  -- if the user accepts, or cannot be asked while the fallback is not "deny".
  pub check_kube_rules_gate :
      (rules : List ConfirmationRule) (c : KubeCall)
      → (((r : ConfirmationRule) → Memᴰ r rules → ¬ AppliesToKube r c)
          → check_kube_rules elicit rules fallback c w ≡ (none, w))
        × ((r : ConfirmationRule)
            → Memᴰ r rules
            → AppliesToKube r c
            → let asked =
                elicit (merge_matched_rules (match_kube_level_rules rules c) fallback).0 w in
              ((check_kube_rules elicit rules fallback c w).1 ≡ asked.1)
              × ((check_kube_rules elicit rules fallback c w).0 ≡ none
                  ↔ LetsThrough fallback asked.0))
  unfolding check_kube_rules
  check_kube_rules_gate rules c = (
    λ free. confirm_matched_nil _ (
        empty_of_no_member _ (λ r m.
          let (listed, applies) = (match_kube_level_rules_iff rules c r).0 m in
          free r listed applies)),
    λ r listed applies.
        let e =
          confirm_matched_mem _ r ((match_kube_level_rules_iff rules c r).1 (listed, applies)) in
        (ap (λ p. p.1) e, rw e (judge-none_iff fallback _)),
  )
