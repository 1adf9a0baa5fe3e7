-- ===== src/Confirmation/Matching.antt =====
-- Which rules match a call, and what validation establishes (pkg/api/confirmation.go and
-- pkg/confirmation/match.go).
use kube_mcp_server.Base.{
  String, ◌≡◌, ◌≢◌, ◌↔◌, ◌⊎◌, Bool, true, false, Option, none, List, arith, eq_iff,
}
use mathlib.Core.List.{Memᴰ}
use kube_mcp_server.Base.Members.{mem-of-keep, mem-keep}
use kube_mcp_server.Confirmation.{
  ConfirmationRule, ToolCall, KubeCall, is_tool_level, is_kube_level, validate, rejects,
  rejects_hint, matches_tool, match_tool_level_rules, matches_kube, match_kube_level_rules,
}

-- A field constrains a call: left open, or equal.
abbrev pub Fits : String → String → Type 0
Fits field value = (field ≡ "") ⊎ (field ≡ value)

-- What a tool-level rule says of a call, without the order of the code's tests.
pub record AppliesToTool (r : ConfirmationRule) (c : ToolCall) : Type 0 where
  pub sets_a_field : (r.tool ≢ "") ⊎ (r.destructive ≢ none)
  pub tool_fits : Fits r.tool c.tool_name
  pub hint_fits : (r.destructive ≡ none) ⊎ (r.destructive ≡ c.destructive_hint)

abbrev pub SetsKubeField : ConfirmationRule → Type 0
SetsKubeField r =
    (r.verb ≢ "")
    ⊎ ((r.kind ≢ "") ⊎ ((r.group ≢ "") ⊎ ((r.version ≢ "") ⊎ ((r.name ≢ "") ⊎ (r.namespace ≢ "")))))

pub record AppliesToKube (r : ConfirmationRule) (c : KubeCall) : Type 0 where
  pub sets_a_field : SetsKubeField r
  pub verb_fits : Fits r.verb c.verb
  pub kind_fits : Fits r.kind c.kind
  pub group_fits : Fits r.group c.group
  pub version_fits : Fits r.version c.version
  pub name_fits : Fits r.name c.name
  pub namespace_fits : Fits r.namespace c.namespace

rejects-false_iff : (field value : String) → (rejects field value ≡ false) ↔ Fits field value
unfolding rejects
rejects-false_iff field value = (
  ground (arith, eq_iff field "", eq_iff field value),
  ground (arith, eq_iff field "", eq_iff field value),
)

rejects_hint-false_iff :
    (wanted hint : Option Bool)
    → (rejects_hint wanted hint ≡ false) ↔ ((wanted ≡ none) ⊎ (wanted ≡ hint))
unfolding rejects_hint
rejects_hint-false_iff wanted hint = (ground arith, ground arith)

is_tool_level_iff :
    (r : ConfirmationRule) → (is_tool_level r ≡ true) ↔ ((r.tool ≢ "") ⊎ (r.destructive ≢ none))
unfolding is_tool_level
is_tool_level_iff r = (ground (arith, eq_iff r.tool ""), ground (arith, eq_iff r.tool ""))

is_kube_level_iff : (r : ConfirmationRule) → (is_kube_level r ≡ true) ↔ SetsKubeField r
unfolding is_kube_level
is_kube_level_iff r = (
  ground (
    arith,
    eq_iff r.verb "",
    eq_iff r.kind "",
    eq_iff r.group "",
    eq_iff r.version "",
    eq_iff r.name "",
    eq_iff r.namespace "",
  ),
  ground (
    arith,
    eq_iff r.verb "",
    eq_iff r.kind "",
    eq_iff r.group "",
    eq_iff r.version "",
    eq_iff r.name "",
    eq_iff r.namespace "",
  ),
)

matches_tool_iff :
    (c : ToolCall) (r : ConfirmationRule) → (matches_tool c r ≡ true) ↔ AppliesToTool r c
unfolding matches_tool
matches_tool_iff c r =
    let level = is_tool_level_iff r in
    let tool = rejects-false_iff r.tool c.tool_name in
    let hint = rejects_hint-false_iff r.destructive c.destructive_hint in
    (
      λ h. record {
        sets_a_field = level.0 (ground arith);
        tool_fits = tool.0 (ground arith);
        hint_fits = hint.0 (ground arith);
      },
      λ a. ground (arith, level.1 a.sets_a_field, tool.1 a.tool_fits, hint.1 a.hint_fits),
    )

matches_kube_iff :
    (c : KubeCall) (r : ConfirmationRule) → (matches_kube c r ≡ true) ↔ AppliesToKube r c
unfolding matches_kube
matches_kube_iff c r =
    let level = is_kube_level_iff r in
    let verb = rejects-false_iff r.verb c.verb in
    let kind = rejects-false_iff r.kind c.kind in
    let group = rejects-false_iff r.group c.group in
    let version = rejects-false_iff r.version c.version in
    let name = rejects-false_iff r.name c.name in
    let namespace = rejects-false_iff r.namespace c.namespace in
    (
      λ h. record {
        sets_a_field = level.0 (ground arith);
        verb_fits = verb.0 (ground arith);
        kind_fits = kind.0 (ground arith);
        group_fits = group.0 (ground arith);
        version_fits = version.0 (ground arith);
        name_fits = name.0 (ground arith);
        namespace_fits = namespace.0 (ground arith);
      },
      λ a. ground (
        arith,
        level.1 a.sets_a_field,
        verb.1 a.verb_fits,
        kind.1 a.kind_fits,
        group.1 a.group_fits,
        version.1 a.version_fits,
        name.1 a.name_fits,
        namespace.1 a.namespace_fits,
      ),
    )

-- The rules that `match_tool_level_rules` returns are those of the list that apply to the call.
pub match_tool_level_rules_iff :
    (rules : List ConfirmationRule) (c : ToolCall) (r : ConfirmationRule)
    → Memᴰ r (match_tool_level_rules rules c) ↔ (Memᴰ r rules × AppliesToTool r c)
unfolding match_tool_level_rules
match_tool_level_rules_iff rules c r = (
  λ m.
      let (listed, ok) = mem-of-keep (matches_tool c) rules r m in
      (listed, (matches_tool_iff c r).0 ok),
  λ h. mem-keep (matches_tool c) rules r h.0 ((matches_tool_iff c r).1 h.1),
)

-- The rules that `match_kube_level_rules` returns are those of the list that apply to the request.
pub match_kube_level_rules_iff :
    (rules : List ConfirmationRule) (c : KubeCall) (r : ConfirmationRule)
    → Memᴰ r (match_kube_level_rules rules c) ↔ (Memᴰ r rules × AppliesToKube r c)
unfolding match_kube_level_rules
match_kube_level_rules_iff rules c r = (
  λ m.
      let (listed, ok) = mem-of-keep (matches_kube c) rules r m in
      (listed, (matches_kube_iff c r).0 ok),
  λ h. mem-keep (matches_kube c) rules r h.0 ((matches_kube_iff c r).1 h.1),
)

-- A rule passes validation exactly if it is of one level, and of one only.
pub validate-none_iff :
    (r : ConfirmationRule)
    → (validate r ≡ none) ↔ (
        (is_tool_level r ≡ true) × (is_kube_level r ≡ false)
        ⊎ (is_tool_level r ≡ false) × (is_kube_level r ≡ true))
unfolding validate
validate-none_iff r = (ground arith, ground arith)

-- A rule that passed validation never asks twice: if it applies to some call of a tool, it applies
-- to no request to the Kubernetes API.
pub validate-one_gate :
    (r : ConfirmationRule) (t : ToolCall) (k : KubeCall)
    → validate r ≡ none
    → AppliesToTool r t
    → ¬ AppliesToKube r k
validate-one_gate r t k valid applies twice = ground (
  arith,
  (validate-none_iff r).0 valid,
  (is_tool_level_iff r).1 applies.sets_a_field,
  (is_kube_level_iff r).1 twice.sets_a_field,
)
