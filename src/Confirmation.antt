-- ===== src/Confirmation.antt =====
-- Confirmation rules: pkg/api/confirmation.go, pkg/confirmation/match.go and
-- pkg/confirmation/confirmation.go. A `*bool` is an `Option Bool`; an empty text is a field that
-- the rule leaves open. Eliciting an answer from the user is a parameter with a state of its own.
pub mod Matching
pub mod Messages
pub mod Gate
mod Tests
use kube_mcp_server.Base.{
  String, Bool, true, false, not, ◌&&◌, ◌||◌, Option, none, some, List, [], ◌∷◌, ◌==◌, ◌!=◌,
  if◌then◌else◌, is_some, keep,
}
use Prim.Native.String as Str

pub record ConfirmationRule : Type 0 where
  pub tool : String
  pub destructive : Option Bool
  pub verb : String
  pub kind : String
  pub group : String
  pub version : String
  pub name : String
  pub namespace : String
  pub message : String

-- The call of a tool that rules are matched against.
pub record ToolCall : Type 0 where
  pub tool_name : String
  pub destructive_hint : Option Bool

-- The request to the Kubernetes API that rules are matched against.
pub record KubeCall : Type 0 where
  pub verb : String
  pub kind : String
  pub group : String
  pub version : String
  pub name : String
  pub namespace : String

unfoldable pub is_tool_level : ConfirmationRule → Bool
is_tool_level r = r.tool != "" || is_some r.destructive

unfoldable pub is_kube_level : ConfirmationRule → Bool
is_kube_level r =
    r.verb != ""
    || (r.kind != "" || (r.group != "" || (r.version != "" || (r.name != "" || r.namespace != ""))))

pub data RuleError : Type 0 where
  mixes_levels : String → RuleError
  no_level : String → RuleError

unfoldable pub validate : ConfirmationRule → Option RuleError
validate r =
    if is_tool_level r && is_kube_level r
    then some (mixes_levels r.message)
    else if not (is_tool_level r) && not (is_kube_level r)
    then some (no_level r.message)
    else none

-- The `continue` of a field: it is set, and differs from the value in the call.
unfoldable pub rejects : String → String → Bool
rejects field value = field != "" && field != value

-- `*a != *b`
abbrev pub bool_ne : Bool → Bool → Bool
bool_ne true b = not b
bool_ne false b = b

-- The test on `Destructive`, with its nil checks.
unfoldable pub rejects_hint : Option Bool → Option Bool → Bool
rejects_hint none hint = false
rejects_hint (some wanted) none = true
rejects_hint (some wanted) (some hint) = bool_ne wanted hint

-- One round of the loop of `MatchToolLevelRules`: whether the rule is appended.
unfoldable pub matches_tool : ToolCall → ConfirmationRule → Bool
matches_tool c r =
    if not (is_tool_level r)
    then false
    else if rejects r.tool c.tool_name
    then false
    else if rejects_hint r.destructive c.destructive_hint
    then false
    else true

unfoldable pub match_tool_level_rules : List ConfirmationRule → ToolCall → List ConfirmationRule
match_tool_level_rules rules c = keep (matches_tool c) rules

-- One round of the loop of `MatchKubeLevelRules`.
unfoldable pub matches_kube : KubeCall → ConfirmationRule → Bool
matches_kube c r =
    if not (is_kube_level r)
    then false
    else if rejects r.verb c.verb
    then false
    else if rejects r.kind c.kind
    then false
    else if rejects r.group c.group
    then false
    else if rejects r.version c.version
    then false
    else if rejects r.name c.name
    then false
    else if rejects r.namespace c.namespace
    then false
    else true

unfoldable pub match_kube_level_rules : List ConfirmationRule → KubeCall → List ConfirmationRule
match_kube_level_rules rules c = keep (matches_kube c) rules

-- The loop that writes the bulleted list behind what the builder holds.
unfoldable pub write_messages : String → List ConfirmationRule → String
write_messages sb [] = sb
write_messages sb (r ∷ rs) = write_messages (Str.◌++◌ sb (Str.◌++◌ "\n- " r.message)) rs

-- The message and the effective fallback.
unfoldable pub merge_matched_rules : List ConfirmationRule → String → String × String
unfolding write_messages
merge_matched_rules [] global_fallback = ("", global_fallback)
merge_matched_rules (r ∷ []) global_fallback = (r.message, global_fallback)
merge_matched_rules (r ∷ s ∷ rs) global_fallback =
    (write_messages "Confirmation required:" (r ∷ s ∷ rs), global_fallback)

-- An error of the elicitor: the client cannot be asked, or something else went wrong.
pub data ElicitError : Type 0 where
  not_supported : String → ElicitError
  other : String → ElicitError

pub data ElicitReply : Type 0 where
  action : String → ElicitReply
  failed : ElicitError → ElicitReply

-- A prompt that is shown may change the world in which the server runs.
abbrev pub Elicitor : Type 0 → Type 0
Elicitor W = String → W → ElicitReply × W

pub data CheckError : Type 0 where
  confirmation_denied : CheckError
  elicit_error : ElicitError → CheckError

-- What `CheckConfirmation` makes of the reply.
unfoldable pub judge : String → ElicitReply → Option CheckError
judge fallback (failed (not_supported e)) =
    if fallback == "deny" then some confirmation_denied else none
judge fallback (failed (other e)) = some (elicit_error (other e))
judge fallback (action a) = if a == "accept" then none else some confirmation_denied

module _ {W : Type 0} (elicit : Elicitor W) where
  unfoldable pub check_confirmation : String → String → W → Option CheckError × W
  check_confirmation message fallback w =
      let (reply, w') = elicit message w in (judge fallback reply, w')

  -- The common tail of the two checks: nothing matched, or the merged message is put to the user.
  unfoldable pub confirm_matched : List ConfirmationRule → String → W → Option CheckError × W
  confirm_matched [] fallback w = (none, w)
  confirm_matched (r ∷ rs) fallback w =
      let (message, effective) = merge_matched_rules (r ∷ rs) fallback in
      check_confirmation message effective w

  unfoldable pub check_tool_rules :
      List ConfirmationRule → String → ToolCall → W → Option CheckError × W
  check_tool_rules rules fallback c w = confirm_matched (match_tool_level_rules rules c) fallback w

  unfoldable pub check_kube_rules :
      List ConfirmationRule → String → KubeCall → W → Option CheckError × W
  check_kube_rules rules fallback c w = confirm_matched (match_kube_level_rules rules c) fallback w
