-- ===== src/Config.antt =====
-- Validation of the configuration: `StaticConfig.Validate`, `ValidateRequireTLS`,
-- `ResolveClusterAuthMode` and `ValidateClusterAuthMode` of pkg/config/config.go,
-- pkg/config/tls.go, `HTTPConfig.Validate` of pkg/config/http_config.go, `Validate` of
-- pkg/toolsets/toolsets.go and `FromString` of pkg/output/output.go. `url.Parse`, which gives a
-- scheme here, and `os.Stat` are parameters, and so are the rates (floats).
pub mod Valid
pub mod Files
mod Tests
use Prim.Native.String as Str
use kube_mcp_server.Base.{
  String, Bool, true, false, not, ◌&&◌, ◌||◌, ◌⊎◌, inl, inr, Option, none, some, List, [], ◌∷◌,
  ◌==◌, ◌!=◌, if◌then◌else◌, contains,
}
use kube_mcp_server.Base.Int.{ℤ, pos, negsuc, ltz}
use kube_mcp_server.Base.Text.{trim_space}

-- The fields that validation reads.
pub record StaticConfig (R : Type 0) : Type 0 where
  pub list_output : String
  pub toolsets : List String
  pub cluster_provider_strategy : String
  pub provider_strategies : List String
  pub require_oauth : Bool
  pub oauth_audience : String
  pub authorization_url : String
  pub server_url : String
  pub sse_base_url : String
  pub certificate_authority : String
  pub tls_cert : String
  pub tls_key : String
  pub require_tls : Bool
  pub cluster_auth_mode : String
  pub token_exchange_strategy : String
  pub sts_audience : String
  pub rate_limit_rps : R
  pub rate_limit_burst : ℤ

-- What validation asks of its surroundings: the names of the registered toolsets, the scheme of a
-- URL or an error, the error of looking up a file, and whether a rate is below zero.
pub record Surroundings (R : Type 0) : Type 0 where
  pub toolset_names : List String
  pub parse_url : String → String ⊎ String
  pub stat : String → Option String
  pub is_negative : R → Bool

-- Why a field's URL is refused where TLS is required.
pub data UrlError : Type 0 where
  unreadable_url : String → String → UrlError
  insecure_url : String → String → UrlError

pub data ConfigError : Type 0 where
  invalid_output : String → ConfigError
  invalid_toolset : String → ConfigError
  invalid_provider : String → ConfigError
  oauth_settings_without_oauth : ConfigError
  invalid_url : String → ConfigError
  bad_authorization_scheme : ConfigError
  missing_file : String → String → ConfigError
  cert_without_key : ConfigError
  tls_validation_failed : List UrlError → ConfigError
  invalid_cluster_auth_mode : String → ConfigError
  passthrough_without_oauth : ConfigError
  exchange_with_kubeconfig : ConfigError
  exchange_without_oauth : ConfigError
  negative_rate_limit : ConfigError

-- The next test, if there is no error yet.
infix 20 ◌then_check◌
abbrev pub ◌then_check◌ : Option ConfigError → Option ConfigError → Option ConfigError
none then_check next = next
(some e) then_check next = some e

abbrev pub first_error : List (Option ConfigError) → Option ConfigError
first_error [] = none
first_error (o ∷ os) = o then_check first_error os

abbrev pub refuse_if : Bool → ConfigError → Option ConfigError
refuse_if bad e = if bad then some e else none

-- output.FromString(name) == nil
abbrev pub output_names : List String
output_names = "yaml" ∷ "table" ∷ []

unfoldable pub is_secure_http_scheme : String → Bool
is_secure_http_scheme scheme = scheme == "https" || scheme == "wss"

abbrev pub tls_scheme_error : String → String ⊎ String → Option UrlError
tls_scheme_error field (inl e) = some (unreadable_url field e)
tls_scheme_error field (inr scheme) =
    if not (is_secure_http_scheme scheme) then some (insecure_url field scheme) else none

-- The errors of all fields are joined, in the order of the fields' names.
abbrev pub append_error : Option UrlError → List UrlError → List UrlError
append_error none errs = errs
append_error (some e) errs = e ∷ errs

abbrev pub join_errors : List UrlError → Option ConfigError
join_errors [] = none
join_errors (e ∷ es) = some (tls_validation_failed (e ∷ es))

abbrev pub has_strategies : List String → Bool
has_strategies [] = false
has_strategies (s ∷ ss) = true

module _ {R : Type 0} where
  unfoldable pub validate_cluster_auth_mode : StaticConfig R → Option ConfigError
  validate_cluster_auth_mode c =
      let has_exchange = c.token_exchange_strategy != "" || c.sts_audience != "" in
      let mode = c.cluster_auth_mode in
      refuse_if (mode != "" && (mode != "passthrough" && mode != "kubeconfig"))
        (invalid_cluster_auth_mode mode)
      then_check (refuse_if (mode == "passthrough" && not c.require_oauth) passthrough_without_oauth
          then_check (refuse_if (mode == "kubeconfig" && has_exchange) exchange_with_kubeconfig
              then_check refuse_if (not c.require_oauth && has_exchange) exchange_without_oauth))

  abbrev pub check_provider : StaticConfig R → Option ConfigError
  check_provider c =
      refuse_if
        (c.cluster_provider_strategy != ""
          && (has_strategies c.provider_strategies
              && not (contains c.provider_strategies c.cluster_provider_strategy)))
        (invalid_provider c.cluster_provider_strategy)

  abbrev pub check_oauth : StaticConfig R → Option ConfigError
  check_oauth c =
      refuse_if
        (not c.require_oauth
          && (c.oauth_audience != ""
              || (c.authorization_url != ""
                  || (c.server_url != "" || c.certificate_authority != ""))))
        oauth_settings_without_oauth

  abbrev pub check_pair : StaticConfig R → Option ConfigError
  check_pair c =
      refuse_if ((c.tls_cert != "" && c.tls_key == "") || (c.tls_cert == "" && c.tls_key != ""))
        cert_without_key

  abbrev pub normalize : StaticConfig R → StaticConfig R
  normalize c = record c {
    certificate_authority = trim_space c.certificate_authority;
    tls_cert = trim_space c.tls_cert;
    tls_key = trim_space c.tls_key;
  }

  unfoldable pub resolve_cluster_auth_mode : StaticConfig R → String
  resolve_cluster_auth_mode c =
      if c.cluster_auth_mode != ""
      then c.cluster_auth_mode
      else if c.require_oauth
      then "passthrough"
      else "kubeconfig"

module _ {R : Type 0} (env : Surroundings R) where
  -- toolsets.Validate
  unfoldable pub validate_toolsets : List String → Option ConfigError
  unfolding trim_space
  validate_toolsets [] = none
  validate_toolsets (name ∷ names) =
      let rest = validate_toolsets names in
      if contains env.toolset_names (trim_space name) then rest else some (invalid_toolset name)

  unfoldable pub validate_url_requires_tls : String → String → Option UrlError
  unfolding is_secure_http_scheme
  validate_url_requires_tls url field =
      if url == "" then none else tls_scheme_error field (env.parse_url url)

  unfoldable pub tls_errors : List (String × String) → List UrlError
  unfolding validate_url_requires_tls
  tls_errors [] = []
  tls_errors ((field, url) ∷ urls) =
      append_error (validate_url_requires_tls url field) (tls_errors urls)

  unfoldable pub validate_require_tls : StaticConfig R → Option ConfigError
  unfolding tls_errors
  validate_require_tls c =
      if not c.require_tls
      then none
      else join_errors (
          tls_errors (
            ("authorization_url", c.authorization_url)
            ∷ ("server_url", c.server_url)
            ∷ ("sse_base_url", c.sse_base_url)
            ∷ []))

  -- HTTPConfig.Validate
  unfoldable pub validate_http : StaticConfig R → Option ConfigError
  validate_http c =
      refuse_if (env.is_negative c.rate_limit_rps) negative_rate_limit
      then_check refuse_if (ltz c.rate_limit_burst (pos 0)) negative_rate_limit

  abbrev pub authorization_scheme_error : String ⊎ String → Option ConfigError
  authorization_scheme_error (inl e) = some (invalid_url e)
  authorization_scheme_error (inr scheme) =
      refuse_if (scheme != "https" && scheme != "http") bad_authorization_scheme

  abbrev pub file_error : String → String → Option String → Option ConfigError
  file_error field path none = none
  file_error field path (some e) = some (missing_file field e)

  abbrev pub check_file : String → String → Option ConfigError
  check_file field path = if path == "" then none else file_error field path (env.stat path)

  abbrev pub check_authorization_url : StaticConfig R → Option ConfigError
  check_authorization_url c =
      if c.authorization_url == ""
      then none
      else authorization_scheme_error (env.parse_url c.authorization_url)

  -- The tests on the normalized configuration, in their order; the first error is returned.
  unfoldable pub checks : StaticConfig R → List (Option ConfigError)
  unfolding validate_toolsets validate_require_tls validate_cluster_auth_mode validate_http
  checks c =
      refuse_if (not (contains output_names c.list_output)) (invalid_output c.list_output)
      ∷ validate_toolsets c.toolsets
      ∷ check_provider c
      ∷ check_oauth c
      ∷ check_authorization_url c
      ∷ check_file "certificate-authority" c.certificate_authority
      ∷ check_pair c
      ∷ check_file "tls-cert" c.tls_cert
      ∷ check_file "tls-key" c.tls_key
      ∷ validate_require_tls c
      ∷ validate_cluster_auth_mode c
      ∷ validate_http c
      ∷ []

  -- The error, and the configuration with its white space trimmed.
  unfoldable pub validate : StaticConfig R → Option ConfigError × StaticConfig R
  unfolding checks trim_space
  validate c = (first_error (checks (normalize c)), normalize c)
