-- ===== src/AccessControl/Validators/Prompt.antt =====
-- The validator that asks the user: pkg/kubernetes/confirmation_validator.go. The session of the
-- request, which go-sdk implements, is a parameter.
use Prim.Native.String as Str
use kube_mcp_server.Base.{String, Bool, ◌&&◌, Option, none, some, List, if◌then◌else◌}
use kube_mcp_server.Base.Text.{contains_text}
use kube_mcp_server.AccessControl.Url.{Gvk}
use kube_mcp_server.AccessControl.Validators.{
  ValidationRequest, permission_denied, ValidatorError, validation, elicitation, Validator,
}
use kube_mcp_server.Confirmation.{
  ConfirmationRule, KubeCall, not_supported, other, ElicitReply, action, failed, Elicitor,
  CheckError, confirmation_denied, elicit_error, check_kube_rules,
}

-- A reply of `ServerSession.Elicit`: the user's action, or an error's text.
pub data SdkReply : Type 0 where
  answered : String → SdkReply
  sdk_error : String → SdkReply

unfoldable pub is_elicitation_not_supported_error : String → Bool
is_elicitation_not_supported_error msg =
    contains_text msg "does not support" && contains_text msg "elicitation"

unfoldable pub read_reply : SdkReply → ElicitReply
unfolding is_elicitation_not_supported_error
read_reply (answered a) = action a
read_reply (sdk_error msg) =
    if is_elicitation_not_supported_error msg
    then failed (not_supported (Str.◌++◌ "client does not support elicitation" (Str.◌++◌ ": " msg)))
    else failed (other msg)

-- The error of the check, as the validator reports it.
unfoldable pub report : Option CheckError → Option ValidatorError
report none = none
report (some confirmation_denied) = some (
    validation
      (record { code = permission_denied; message = "action requires confirmation"; field = "" }))
report (some (elicit_error e)) = some (elicitation e)

abbrev pub kube_call : ValidationRequest → Option Gvk → KubeCall
kube_call req none = record {
  verb = req.verb;
  kind = "";
  group = "";
  version = "";
  name = req.resource_name;
  namespace = req.namespace;
}
kube_call req (some gvk) = record {
  verb = req.verb;
  kind = gvk.kind;
  group = gvk.group;
  version = gvk.version;
  name = req.resource_name;
  namespace = req.namespace;
}

module _ {W : Type 0} where
  -- The session in the context; `none` where there is none.
  unfoldable pub context_elicit : (W → Option (String → W → SdkReply × W)) → Elicitor W
  unfolding read_reply
  context_elicit session message w = elim (session w) [
    | none ↦ (failed (other "no MCP session found in context"), w)
    | some ask ↦ let (reply, w') = ask message w in (read_reply reply, w')
  ]

  -- The rules and the fallback are read from the configuration at each request.
  unfoldable pub confirmation_validate :
      Elicitor W
      → (W → List ConfirmationRule × String)
      → ValidationRequest
      → W
      → Option ValidatorError × W
  unfolding report
  confirmation_validate elicit provider req w =
      let (rules, fallback) = provider w in
      let (e, w') = check_kube_rules elicit rules fallback (kube_call req req.gvk) w in
      (report e, w')

  abbrev pub confirmation_validator :
      Elicitor W → (W → List ConfirmationRule × String) → Validator W
  confirmation_validator elicit provider = record {
    name = "ConfirmationValidator";
    validate = confirmation_validate elicit provider;
  }
