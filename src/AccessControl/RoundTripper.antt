-- ===== src/AccessControl/RoundTripper.antt =====
-- The round tripper: `AccessControlRoundTripper`, `NewAccessControlRoundTripper`, `RoundTrip` and
-- `isAllowed` of pkg/kubernetes/accesscontrol_round_tripper.go. The delegate, the REST mapper and
-- `url.Parse` are parameters.
pub mod Denied
pub mod Guarded
pub mod Construct
use kube_mcp_server.Base.{
  String, ◌⊎◌, inl, inr, not, Bool, true, false, ◌&&◌, ◌||◌, Option, none, some, List, [], ◌∷◌,
  ◌==◌, if◌then◌else◌, is_none, ◌++◌,
}
use kube_mcp_server.Base.Assoc.{Assoc, insert}
use kube_mcp_server.AccessControl.Url.{
  Gvr, Gvk, parse_url_to_gvr, strip_api_path_prefix, parse_url_to_namespace_and_name,
  http_method_to_verb,
}
use kube_mcp_server.AccessControl.Validators.{
  ValidationRequest, ValidationError, resource_not_found, ValidatorError, Validator,
  format_resource_name,
}
use Prim.Native.String as Str

-- A request's body: nil, or a reader that ends well or with an error.
pub data Body : Type 0 where
  no_body : Body
  readable : String → Body
  unreadable : String → Body

pub record HttpRequest : Type 0 where
  pub method : String
  pub path : String
  pub body : Body

-- The mapper's answer for a resource type.
pub data KindReply : Type 0 where
  kind_is : Gvk → KindReply
  no_match : KindReply
  kind_error : String → KindReply

pub data RequestError : Type 0 where
  mapper_not_initialized : RequestError
  no_such_resource : ValidationError → RequestError
  kind_lookup_failed : Gvr → String → RequestError
  not_allowed : Gvk → RequestError
  body_unreadable : String → RequestError
  refused_by : ValidatorError → RequestError

-- The end of a round trip: an error of the gate, or whatever the delegate returned.
pub data Outcome (R : Type 0) : Type 0 where
  refused : RequestError → Outcome R
  delegated : R → Outcome R

pub record RoundTripper (W R : Type 0) : Type 0 where
  pub delegate : HttpRequest → W → R × W
  pub denied_resources : Option (W → List Gvk)
  pub rest_mapper : W → Option (Gvr → KindReply)
  pub api_path_prefix : String
  pub validators : List (Validator W)

-- One round of the loop of `isAllowed`: whether the entry denies the kind.
unfoldable pub denies : Gvk → Gvk → Bool
denies gvk val =
    (val.kind == "" && (gvk.group == val.group && gvk.version == val.version))
    || (gvk.group == val.group && (gvk.version == val.version && gvk.kind == val.kind))

unfoldable pub no_entry_denies : Gvk → List Gvk → Bool
unfolding denies
no_entry_denies gvk [] = true
no_entry_denies gvk (val ∷ vals) =
    let rest = no_entry_denies gvk vals in if denies gvk val then false else rest

unfoldable pub is_allowed : {W : Type 0} → Option (W → List Gvk) → Gvk → W → Bool
is_allowed none gvk w = true
is_allowed (some denied) gvk w = no_entry_denies gvk (denied w)

-- The methods whose body is read for the validators.
abbrev pub has_manifest : String → Bool
has_manifest method = method == "POST" || (method == "PUT" || method == "PATCH")

-- The text for the validators, or the error of reading it. A body that was read is put back.
unfoldable pub read_body : HttpRequest → String ⊎ String
read_body req =
    if has_manifest req.method
    then elim req.body [ no_body ↦ inr "" | readable text ↦ inr text | unreadable e ↦ inl e ]
    else inr ""

unfoldable pub is_access_review : Gvr → Bool
is_access_review gvr =
    gvr.group == "authorization.k8s.io" && gvr.resource == "selfsubjectaccessreviews"

unfoldable pub missing_resource_error : Gvr → ValidationError
unfolding format_resource_name
missing_resource_error gvr = record {
  code = resource_not_found;
  message =
      Str.◌++◌ "Resource "
        (Str.◌++◌ (format_resource_name (some gvr)) " does not exist in the cluster");
  field = "";
}

-- What the validators are shown of a request.
unfoldable pub validation_request : HttpRequest → String → Gvr → Gvk → String → ValidationRequest
validation_request req path gvr gvk body =
    let (namespace, name) = parse_url_to_namespace_and_name path in
    record {
      gvr = some gvr;
      gvk = some gvk;
      http_method = req.method;
      verb = http_method_to_verb req.method path;
      namespace = namespace;
      resource_name = name;
      body = body;
      path = path;
    }

-- The loop over the validators, which returns the first error.
unfoldable pub run_validators :
    {W : Type 0} → List (Validator W) → ValidationRequest → W → Option ValidatorError × W
run_validators [] req w = (none, w)
run_validators (v ∷ vs) req w = elim (v.validate req w).0 [
  | some e ↦ (some e, (v.validate req w).1)
  | none ↦ run_validators vs req (v.validate req w).1
]

module _ {W R : Type 0} (rt : RoundTripper W R) where
  unfoldable pub forward : HttpRequest → W → Outcome R × W
  forward req w = let (r, w') = rt.delegate req w in (delegated r, w')

  unfoldable pub finish : HttpRequest → Option ValidatorError × W → Outcome R × W
  unfolding forward
  finish req (some e, w) = (refused (refused_by e), w)
  finish req (none, w) = forward req w

  -- With the body that was read for the validators, or the error of reading it.
  unfoldable pub check_body : HttpRequest → String → Gvr → Gvk → String ⊎ String → W → Outcome R × W
  unfolding finish
  check_body req path gvr gvk (inl e) w = (refused (body_unreadable e), w)
  check_body req path gvr gvk (inr body) w =
      finish req (run_validators rt.validators (validation_request req path gvr gvk body) w)

  -- Behind the kind's lookup: the denied kinds, the exemption of access reviews, the validators.
  unfoldable pub guard_kind : HttpRequest → String → Gvr → Gvk → W → Outcome R × W
  unfolding forward check_body
  guard_kind req path gvr gvk w =
      if not (is_allowed rt.denied_resources gvk w)
      then (refused (not_allowed gvk), w)
      else if is_access_review gvr
      then forward req w
      else check_body req path gvr gvk (read_body req) w

  unfoldable pub guard_resource : HttpRequest → String → Gvr → KindReply → W → Outcome R × W
  unfolding guard_kind
  guard_resource req path gvr no_match w =
      (refused (no_such_resource (missing_resource_error gvr)), w)
  guard_resource req path gvr (kind_error e) w = (refused (kind_lookup_failed gvr e), w)
  guard_resource req path gvr (kind_is gvk) w = guard_kind req path gvr gvk w

  -- With the mapper of the moment, which may not be there yet.
  unfoldable pub map_kind :
      HttpRequest → String → Gvr → Option (Gvr → KindReply) → W → Outcome R × W
  unfolding guard_resource
  map_kind req path gvr none w = (refused mapper_not_initialized, w)
  map_kind req path gvr (some mapper) w = guard_resource req path gvr (mapper gvr) w

  -- What is not an API resource is passed on.
  unfoldable pub route : HttpRequest → String → Option Gvr → W → Outcome R × W
  unfolding map_kind
  route req path none w = forward req w
  route req path (some gvr) w = map_kind req path gvr (rt.rest_mapper w) w

  unfoldable pub round_trip : HttpRequest → W → Outcome R × W
  unfolding route
  round_trip req w =
      let path = strip_api_path_prefix req.path rt.api_path_prefix in
      route req path (parse_url_to_gvr path) w
