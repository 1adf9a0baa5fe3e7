-- ===== src/Config/Tests.antt =====
-- Configurations at concrete values. A rate is a signed integer.
use kube_mcp_server.Base.{◌≡◌, refl, inr, true, none, some, [], ◌∷◌, if◌then◌else◌}
use kube_mcp_server.Base.Int.{ℤ, pos, ltz}
use kube_mcp_server.Base.Text.{has_prefix, strip_prefix}
use kube_mcp_server.Config.{
  StaticConfig, Surroundings, cert_without_key, insecure_url, tls_validation_failed, validate,
  is_secure_http_scheme,
}
use kube_mcp_server.Config.Valid.{IsCoherent, validate-IsCoherent}

abbrev surroundings : Surroundings ℤ
surroundings = record {
  toolset_names = "core" ∷ "helm" ∷ [];
  parse_url = λ u. if has_prefix u "https://" then inr "https" else inr "http";
  stat = λ path. none;
  is_negative = λ r. ltz r (pos 0);
}

abbrev protected : StaticConfig ℤ
protected = record {
  list_output = "table";
  toolsets = " core " ∷ [];
  cluster_provider_strategy = "";
  provider_strategies = "kubeconfig" ∷ [];
  require_oauth = true;
  oauth_audience = "mcp";
  authorization_url = "https://issuer";
  server_url = "";
  sse_base_url = "";
  certificate_authority = " ";
  tls_cert = "cert.pem";
  tls_key = "key.pem ";
  require_tls = true;
  cluster_auth_mode = "";
  token_exchange_strategy = "rfc8693";
  sts_audience = "";
  rate_limit_rps = pos 5;
  rate_limit_burst = pos 0;
}

accepted : (validate surroundings protected).0 ≡ none
unfolding validate is_secure_http_scheme strip_prefix
accepted = refl

-- A key of white space is no key.
lonely_cert :
    (validate surroundings (record protected { tls_key = "  " })).0 ≡ some cert_without_key
unfolding validate is_secure_http_scheme strip_prefix
lonely_cert = refl

plain_http :
    (validate surroundings (record protected { server_url = "http://host" })).0
    ≡ some (tls_validation_failed (insecure_url "server_url" "http" ∷ []))
unfolding validate is_secure_http_scheme strip_prefix
plain_http = refl

validate-IsCoherent_example : IsCoherent surroundings (validate surroundings protected).1
validate-IsCoherent_example = validate-IsCoherent surroundings protected accepted
