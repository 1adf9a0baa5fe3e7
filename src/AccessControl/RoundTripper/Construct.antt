-- ===== src/AccessControl/RoundTripper/Construct.antt =====
-- Building the round tripper: `NewAccessControlRoundTripper` of
-- pkg/kubernetes/accesscontrol_round_tripper.go with the factories that the `init` of
-- pkg/kubernetes/validator_registry.go registers. `url.Parse` is a parameter, which gives the path
-- of a URL or fails.
use kube_mcp_server.Base.{
  String, ◌≡◌, refl, inl, inr, Bool, true, false, Option, none, some, List, [], ◌∷◌, ◌++◌, ◌!=◌,
  if◌then◌else◌, Option-cases,
}
use kube_mcp_server.Base.Assoc.{Assoc}
use kube_mcp_server.AccessControl.Url.{Gvr, Gvk}
use kube_mcp_server.AccessControl.Validators.{ValidationRequest, ValidatorError, Validator}
use kube_mcp_server.AccessControl.Validators.Rbac.{AuthClient, rbac_validator}
use kube_mcp_server.AccessControl.Validators.Schema.{SchemaWorld, schema_validator}
use kube_mcp_server.AccessControl.Validators.Prompt.{confirmation_validator}
use kube_mcp_server.AccessControl.Validators.Registry.{register, create_all}
use kube_mcp_server.AccessControl.RoundTripper.{
  HttpRequest, KindReply, RoundTripper, run_validators,
}
use kube_mcp_server.Confirmation.{ConfirmationRule, Elicitor}

-- The providers that the factories take.
pub record ValidatorProviders (W V : Type 0) : Type 0 where
  pub discovery : SchemaWorld W V
  pub auth_client : W → AuthClient W

pub record Config (W V R : Type 0) : Type 0 where
  pub delegate : HttpRequest → W → R × W
  pub denied_resources : Option (W → List Gvk)
  pub rest_mapper : W → Option (Gvr → KindReply)
  pub host_url : String
  pub providers : ValidatorProviders W V
  pub validation_enabled : Bool
  pub confirmation : Option (W → List ConfirmationRule × String)

module _ {W V : Type 0} where
  -- The registrations of `init`; the second is skipped if the first panics.
  unfoldable pub init_registry : Option (Assoc (ValidatorProviders W V → Validator W))
  unfolding register
  init_registry = elim (register "schema" (λ p. schema_validator p.discovery) []) [
    | none ↦ none
    | some factories ↦ register "rbac" (λ p. rbac_validator p.auth_client) factories
  ]

  unfoldable pub create_validators : ValidatorProviders W V → List (Validator W)
  unfolding init_registry create_all
  create_validators providers = elim (init_registry) [
    | none ↦ []
    | some factories ↦ create_all providers factories
  ]

abbrev pub is_empty : List ConfirmationRule → Bool
is_empty [] = true
is_empty (r ∷ rs) = false

abbrev pub path_prefix : (String → Option String) → String → String
path_prefix parse_path host_url =
    if host_url != "" then elim (parse_path host_url) [ none ↦ "" | some p ↦ p ] else ""

unfoldable pub checking_validators : {W V R : Type 0} → Config W V R → List (Validator W)
checking_validators cfg = if cfg.validation_enabled then create_validators cfg.providers else []

-- The validator that asks the user, if there are rules at this moment.
unfoldable pub prompting_validators :
    {W : Type 0} → Elicitor W → Option (W → List ConfirmationRule × String) → W → List (Validator W)
prompting_validators elicit none w = []
prompting_validators elicit (some provider) w =
    if is_empty (provider w).0 then [] else confirmation_validator elicit provider ∷ []

unfoldable pub new_access_control_round_tripper :
    {W V R : Type 0} → (String → Option String) → Elicitor W → Config W V R → W → RoundTripper W R
new_access_control_round_tripper parse_path elicit cfg w = record {
  delegate = cfg.delegate;
  denied_resources = cfg.denied_resources;
  rest_mapper = cfg.rest_mapper;
  api_path_prefix = path_prefix parse_path cfg.host_url;
  validators = checking_validators cfg ++ prompting_validators elicit cfg.confirmation w;
}

-- Going on with more validators behind a result.
abbrev pub then_run :
    {W : Type 0}
    → List (Validator W)
    → ValidationRequest
    → Option ValidatorError × W
    → Option ValidatorError × W
then_run us req (some e, w) = (some e, w)
then_run us req (none, w) = run_validators us req w

pub run_validators-append :
    {W : Type 0} (vs us : List (Validator W)) (req : ValidationRequest) (w : W)
    → run_validators (vs ++ us) req w ≡ then_run us req (run_validators vs req w)
unfolding run_validators
run_validators-append [] us req w = refl
run_validators-append (v ∷ vs) us req w = elim (Option-cases (v.validate req w).0) [
  | inl passed ↦ rw passed (run_validators-append vs us req (v.validate req w).1)
  | inr (e, refused) ↦ rw refused refl
]

-- Whatever the configuration and the request, the user is asked last: where one of the validators
-- that check the request refuses it, the round tripper's validators end with that error and in that
-- world, so the elicitor has not run; where they all pass, the prompt decides what is left.
pub prompt_runs_last :
    {W V R : Type 0} (parse_path : String → Option String) (elicit : Elicitor W)
    (cfg : Config W V R) (at_start w : W) (req : ValidationRequest)
    → run_validators
        (new_access_control_round_tripper parse_path elicit cfg at_start).validators
        req
        w
      ≡ then_run
          (prompting_validators elicit cfg.confirmation at_start)
          req
          (run_validators (checking_validators cfg) req w)
unfolding new_access_control_round_tripper
prompt_runs_last parse_path elicit cfg at_start w req =
    run_validators-append (checking_validators cfg)
      (prompting_validators elicit cfg.confirmation at_start) req w
