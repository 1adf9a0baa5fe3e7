-- ===== src/AccessControl/Validators/Rbac.antt =====
-- The check of permissions before a request: pkg/kubernetes/rbac_validator.go, and `CanI` of
-- pkg/kubernetes/auth.go. The client for access reviews is a parameter.
use kube_mcp_server.Base.{String, Bool, true, not, Option, none, some, ◌==◌, if◌then◌else◌}
use kube_mcp_server.AccessControl.Url.{Gvr}
use kube_mcp_server.AccessControl.Validators.{
  ValidationRequest, ValidatorError, validation, Validator, format_resource_name,
  new_permission_denied_error,
}

-- An access review: what is asked about, and the answer of the API server or its error.
pub record AccessReview : Type 0 where
  pub namespace : String
  pub verb : String
  pub group : String
  pub version : String
  pub resource : String
  pub name : String

pub data ReviewReply : Type 0 where
  reviewed : (allowed : Bool) → ReviewReply
  review_failed : String → ReviewReply

-- A client for access reviews. `none` stands for a nil interface.
abbrev pub AuthClient : Type 0 → Type 0
AuthClient W = Option (AccessReview → W → ReviewReply × W)

module _ {W : Type 0} where
  unfoldable pub can_i : AuthClient W → Gvr → String → String → String → W → ReviewReply × W
  can_i none gvr namespace resource_name verb w = (reviewed true, w)
  can_i (some create) gvr namespace resource_name verb w =
      create
        (record {
          namespace = namespace;
          verb = verb;
          group = gvr.group;
          version = gvr.version;
          resource = gvr.resource;
          name = resource_name;
        })
        w

  -- The end of `RBACValidator.Validate`: an error of the review is not held against the request.
  unfoldable pub judge_review :
      ValidationRequest → Gvr → ReviewReply × W → Option ValidatorError × W
  unfolding new_permission_denied_error format_resource_name
  judge_review req gvr (review_failed e, w) = (none, w)
  judge_review req gvr (reviewed allowed, w) = (
    if not allowed
        then some (
            validation (
              new_permission_denied_error req.verb (format_resource_name (some gvr)) req.namespace))
        else none,
    w,
  )

  -- With the client of the moment, which may not be there.
  unfoldable pub review_with :
      ValidationRequest → Gvr → AuthClient W → W → Option ValidatorError × W
  unfolding judge_review can_i
  review_with req gvr none w = (none, w)
  review_with req gvr (some create) w =
      judge_review req gvr (can_i (some create) gvr req.namespace req.resource_name req.verb w)

  -- With the resource of the request.
  unfoldable pub review_resource :
      (W → AuthClient W) → ValidationRequest → Option Gvr → W → Option ValidatorError × W
  unfolding review_with
  review_resource client req none w = (none, w)
  review_resource client req (some gvr) w =
      if req.verb == "" then (none, w) else review_with req gvr (client w) w

  unfoldable pub rbac_validate :
      (W → AuthClient W) → ValidationRequest → W → Option ValidatorError × W
  unfolding review_resource
  rbac_validate client req w = review_resource client req req.gvr w

  abbrev pub rbac_validator : (W → AuthClient W) → Validator W
  rbac_validator client = record { name = "rbac"; validate = rbac_validate client }
