-- ===== src/AccessControl/Tests.antt =====
-- The gate at concrete requests.
mod Checks
use mathlib.Core.List.{Memᴰ}
use Prim.Native.String as Str
use kube_mcp_server.Base.{
  ℕ, suc, ◌+◌, ◌-◌, ◌≤◌, String, ◌≡◌, refl, sym, ◌≢◌, ◌↔◌, ◌⊎◌, inl, inr, Bool, true, false, Option,
  none, some, List, [], ◌∷◌, arith, ◌==◌, eq_iff, deref, is_none, if◌then◌else◌, map,
}
use kube_mcp_server.Base.Text.{
  strip_prefix, trim_last_slash, trim_left, trim_right, trim_slash, split_slash, contains_text,
}
use kube_mcp_server.AccessControl.Url.{
  Gvr, Gvk, parts_to_gvr, parse_url_to_gvr, strip_api_path_prefix, find_resource_type_index,
  find_namespace, parse_url_to_namespace_and_name, is_collection_path, http_method_to_verb,
}
use kube_mcp_server.AccessControl.Url.Segments.{join, split_slash-join_segments}
use kube_mcp_server.AccessControl.Url.Targets.{Target, api_path, IsRegular, gvr_of}
use kube_mcp_server.AccessControl.Url.Laws.{
  api_path_read_back, http_method_to_verb-api_path, strip_api_path_prefix-append,
}
use kube_mcp_server.AccessControl.Validators.{
  ValidationRequest, ValidationError, invalid_field, ValidatorError, validation, Validator,
}
use kube_mcp_server.AccessControl.Validators.Rbac.{
  AccessReview, ReviewReply, reviewed, AuthClient, rbac_validate,
}
use kube_mcp_server.AccessControl.Validators.Schema.{
  schema_cache_ttl, SchemaCache, SchemaWorld, KubectlError, single, unknown_field, get_validator,
  schema_validate,
}
use kube_mcp_server.AccessControl.Validators.Registry.{create_all}
use kube_mcp_server.AccessControl.Validators.Laws.{
  StoreLaws, IsRefused, rbac_validate-none_iff, get_validator-fresh, schema_validate-refuses,
}
use kube_mcp_server.AccessControl.RoundTripper.{
  no_body, HttpRequest, KindReply, kind_is, Outcome, refused, delegated, not_allowed, RoundTripper,
  run_validators, round_trip,
}
use kube_mcp_server.AccessControl.RoundTripper.Denied.{Denies, is_allowed_iff, round_trip_denied}
use kube_mcp_server.AccessControl.RoundTripper.Guarded.{Cleared, round_trip-delegated_iff}
use kube_mcp_server.AccessControl.RoundTripper.Construct.{
  ValidatorProviders, Config, create_validators, checking_validators, prompting_validators,
  then_run, new_access_control_round_tripper, prompt_runs_last,
}
use kube_mcp_server.AccessControl.RoundTripper.{is_allowed}
use kube_mcp_server.Confirmation.{ConfirmationRule, Elicitor, ElicitReply, action}

-- The API's paths.
abbrev token : Target
token = record {
  group = none;
  version = "v1";
  namespace = some "dev";
  resource = "secrets";
  name = some "token";
}

abbrev all_nodes : Target
all_nodes = record {
  group = some "metrics.k8s.io";
  version = "v1beta1";
  namespace = none;
  resource = "nodes";
  name = none;
}

paths :
    (api_path token ≡ "/api/v1/namespaces/dev/secrets/token")
    × (api_path all_nodes ≡ "/apis/metrics.k8s.io/v1beta1/nodes")
paths = (refl, refl)

url : Unit {0}
unfolding parse_url_to_gvr parts_to_gvr split_slash trim_slash strip_api_path_prefix strip_prefix
    trim_last_slash parse_url_to_namespace_and_name find_namespace find_resource_type_index
    is_collection_path http_method_to_verb kube_mcp_server.Base.Text.to_lower
url = tt

read_paths :
    (parse_url_to_gvr "/api/v1/pods"
      ≡ some (record { group = ""; version = "v1"; resource = "pods" }))
    × (parse_url_to_gvr "/api/v1" ≡ none)
    × (parse_url_to_gvr "/version" ≡ none)
    × (parse_url_to_namespace_and_name "/api/v1/namespaces/dev" ≡ ("dev", "dev"))
    × (strip_api_path_prefix "/k8s/clusters/c-1/api/v1/pods" "/k8s/clusters/c-1/" ≡ "/api/v1/pods")
    × (strip_api_path_prefix "/k8s/clusters/c-10/api" "/k8s/clusters/c-1"
        ≡ "/k8s/clusters/c-10/api")
    × (http_method_to_verb "HEAD" "/api/v1/pods" ≡ "head")
unfolding url
read_paths = (refl, refl, refl, refl, refl, refl, refl)

token-IsRegular : IsRegular token
token-IsRegular = record {
  segments_ok = ground arith;
  group_plain = tt;
  version_plain = ground (arith, eq_iff "v1" "namespaces");
  scope_plain = λ e. cc;
}

nodes-IsRegular : IsRegular all_nodes
nodes-IsRegular = record {
  segments_ok = ground arith;
  group_plain = ground (arith, eq_iff "metrics.k8s.io" "namespaces");
  version_plain = ground (arith, eq_iff "v1beta1" "namespaces");
  scope_plain = λ e. (ground (arith, eq_iff "nodes" "namespaces"), tt);
}

api_path_read_back_example :
    (parse_url_to_gvr (api_path token) ≡ some (gvr_of token))
    × (parse_url_to_namespace_and_name (api_path token) ≡ ("dev", "token"))
    × (is_collection_path (api_path token) ≡ false)
api_path_read_back_example = api_path_read_back token token-IsRegular

-- A world that counts the calls, with a mapper that knows every resource type by its own name.
abbrev mapper : Gvr → KindReply
mapper gvr = kind_is (record { group = gvr.group; version = gvr.version; kind = gvr.resource })

abbrev deny_secrets : ℕ → List Gvk
deny_secrets w = record { group = ""; version = "v1"; kind = "secrets" } ∷ []

abbrev tripper : RoundTripper ℕ String
tripper = record {
  delegate = λ req w. ("200", w + 1);
  denied_resources = some deny_secrets;
  rest_mapper = λ w. some mapper;
  api_path_prefix = "/k8s";
  validators = [];
}

abbrev get_token : HttpRequest
get_token = record {
  method = "GET";
  path = "/k8s/api/v1/namespaces/dev/secrets/token";
  body = no_body;
}

abbrev get_nodes : HttpRequest
get_nodes = record {
  method = "GET";
  path = "/k8s/apis/metrics.k8s.io/v1beta1/nodes";
  body = no_body;
}

abbrev secret_kind : Gvk
secret_kind = record { group = ""; version = "v1"; kind = "secrets" }

secret_denied : Denies secret_kind secret_kind
secret_denied = record { same_group = refl; same_version = refl; covers = inr refl }

round_trip_denied_example : round_trip tripper get_token 5 ≡ (refused (not_allowed secret_kind), 5)
unfolding trim_last_slash
round_trip_denied_example =
    round_trip_denied tripper get_token 5 token mapper secret_kind secret_kind deny_secrets
      token-IsRegular refl refl refl refl (Memᴰ.head refl) secret_denied

round_trip-delegated_iff_example :
    ((r : String) × ((round_trip tripper get_nodes 5).0 ≡ delegated r))
    ↔ Cleared tripper get_nodes 5 (api_path all_nodes) (gvr_of all_nodes)
unfolding trim_last_slash
round_trip-delegated_iff_example =
    round_trip-delegated_iff tripper get_nodes 5 all_nodes nodes-IsRegular refl
