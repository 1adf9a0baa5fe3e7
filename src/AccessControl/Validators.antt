-- ===== src/AccessControl/Validators.antt =====
-- What the validators of a request to the Kubernetes API share: pkg/api/validation.go. `W` is the
-- world in which the server runs: clients of the cluster and sessions are functions of it.
pub mod Rbac
pub mod Schema
pub mod Prompt
pub mod Registry
pub mod Laws
use Prim.Native.String as Str
use kube_mcp_server.Base.{
  ℕ, ◌+◌, ◌-◌, String, Bool, true, false, not, ◌&&◌, ◌||◌, Option, none, some, List, [], ◌∷◌, ◌==◌,
  ◌!=◌, leb, if◌then◌else◌, deref,
}
use kube_mcp_server.Base.Text.{contains_text}
use kube_mcp_server.AccessControl.Url.{Gvr, Gvk}
use kube_mcp_server.Confirmation.{
  ConfirmationRule, KubeCall, ElicitError, not_supported, other, ElicitReply, action, failed,
  Elicitor, CheckError, confirmation_denied, elicit_error, check_kube_rules,
}

pub record ValidationRequest : Type 0 where
  pub gvr : Option Gvr
  pub gvk : Option Gvk
  pub http_method : String
  pub verb : String
  pub namespace : String
  pub resource_name : String
  pub body : String
  pub path : String

pub data ErrorCode : Type 0 where
  resource_not_found invalid_field permission_denied : ErrorCode

pub record ValidationError : Type 0 where
  pub code : ErrorCode
  pub message : String
  pub field : String

-- What a validator may return: a validation error, or an error of the elicitor as it is.
pub data ValidatorError : Type 0 where
  validation : ValidationError → ValidatorError
  elicitation : ElicitError → ValidatorError

pub record Validator (W : Type 0) : Type 0 where
  pub name : String
  pub validate : ValidationRequest → W → Option ValidatorError × W

unfoldable pub format_resource_name : Option Gvr → String
format_resource_name none = "unknown"
format_resource_name (some g) =
    if g.group == "" then g.resource else Str.◌++◌ g.resource (Str.◌++◌ "." g.group)

-- `%q` of a namespace, which holds no character that would be escaped.
abbrev pub quoted : String → String
quoted s = Str.◌++◌ "\"" (Str.◌++◌ s "\"")

unfoldable pub new_permission_denied_error : String → String → String → ValidationError
new_permission_denied_error verb resource namespace =
    let action_on = Str.◌++◌ "Cannot " (Str.◌++◌ verb (Str.◌++◌ " " resource)) in
    record {
      code = permission_denied;
      message =
          if namespace != ""
          then Str.◌++◌ action_on (Str.◌++◌ " in namespace " (quoted namespace))
          else Str.◌++◌ action_on " (cluster-scoped)";
      field = "";
    }
