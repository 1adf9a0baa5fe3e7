-- ===== src/AccessControl/Tests/Checks.antt =====
-- The validators at concrete requests.

use kube_mcp_server.Base.{
  ℕ, String, ◌≡◌, refl, ◌≢◌, ◌↔◌, true, false, Option, none, some, [], ◌∷◌, map,
}
use kube_mcp_server.Base.Text.{contains_text}
use kube_mcp_server.AccessControl.Validators.{
  ValidationRequest, ValidationError, invalid_field, ValidatorError, validation, Validator,
}
use kube_mcp_server.AccessControl.Validators.Rbac.{reviewed, AuthClient, rbac_validate}
use kube_mcp_server.AccessControl.Validators.Schema.{
  schema_cache_ttl, SchemaCache, SchemaWorld, KubectlError, single, unknown_field, get_validator,
  schema_validate,
}
use kube_mcp_server.AccessControl.Validators.Laws.{StoreLaws, IsRefused, rbac_validate-none_iff}
use kube_mcp_server.AccessControl.RoundTripper.{run_validators}
use kube_mcp_server.AccessControl.RoundTripper.Construct.{
  ValidatorProviders, Config, create_validators, checking_validators, prompting_validators,
  then_run, new_access_control_round_tripper, prompt_runs_last,
}
use kube_mcp_server.Confirmation.{ConfirmationRule, Elicitor, action}

-- A world that is a clock and a cache of schemas; a validator is a number.
abbrev World : Type 0
World = ℕ × SchemaCache ℕ

-- It serves schema 7, and finds an unknown field in every manifest.
abbrev schemas : SchemaWorld World ℕ
schemas = record {
  load = λ w. w.1;
  save = λ c w. (w.0, c);
  now = λ w. w.0;
  discovery = λ w. some (some 7);
  validate_bytes = λ v body w. (some (single "unknown field" (unknown_field "spec.x")), w);
}

schemas_laws : StoreLaws schemas
schemas_laws = record { load-save = λ c w. refl; now-save = λ c w. refl }

abbrev old_world : World
old_world = (900_000_000_005, record { kubectl_validator = some 3; validator_cached_at = 0 })

renewed : (get_validator schemas old_world).0 ≡ some 7
unfolding get_validator
renewed = refl

abbrev create_pod : ValidationRequest
create_pod = record {
  gvr = some (record { group = ""; version = "v1"; resource = "pods" });
  gvk = some (record { group = ""; version = "v1"; kind = "Pod" });
  http_method = "POST";
  verb = "create";
  namespace = "dev";
  resource_name = "";
  body = "kind: Pod";
  path = "/api/v1/namespaces/dev/pods";
}

abbrev unknown : ValidationError
unknown = record { code = invalid_field; message = "unknown field"; field = "spec.x" }

pod_refused : (schema_validate schemas create_pod old_world).0 ≡ some (validation unknown)
unfolding schema_validate contains_text
    kube_mcp_server.AccessControl.Validators.Schema.convert_kubectl_validation_error
    kube_mcp_server.AccessControl.Validators.Schema.extract_unknown_field
pod_refused = refl

-- A client for reviews that allows nothing.
abbrev nobody : World → AuthClient World
nobody w = some (λ review w. (reviewed false, w))

rbac_validate-none_iff_example :
    ((rbac_validate nobody create_pod old_world).0 ≢ none) ↔ IsRefused nobody create_pod old_world
rbac_validate-none_iff_example = rbac_validate-none_iff nobody create_pod old_world

abbrev providers : ValidatorProviders World ℕ
providers = record { discovery = schemas; auth_client = nobody }

registered : map (λ v. Validator.name v) (create_validators providers) ≡ "rbac" ∷ "schema" ∷ []
unfolding create_validators
registered = refl

abbrev any_rule : ConfirmationRule
any_rule = record {
  tool = "";
  destructive = none;
  verb = "create";
  kind = "";
  group = "";
  version = "";
  name = "";
  namespace = "";
  message = "create";
}

abbrev config : Config World ℕ String
config = record {
  delegate = λ req w. ("201", w);
  denied_resources = none;
  rest_mapper = λ w. none;
  host_url = "https://host/k8s";
  providers = providers;
  validation_enabled = true;
  confirmation = some (λ w. (any_rule ∷ [], "deny"));
}

abbrev path_of : String → Option String
path_of url = some "/k8s"

abbrev accepting : Elicitor World
accepting message w = (action "accept", w)

prompt_runs_last_example :
    run_validators
      (new_access_control_round_tripper path_of accepting config old_world).validators
      create_pod
      old_world
    ≡ then_run
        (prompting_validators accepting config.confirmation old_world)
        create_pod
        (run_validators (checking_validators config) create_pod old_world)
prompt_runs_last_example = prompt_runs_last path_of accepting config old_world old_world create_pod
