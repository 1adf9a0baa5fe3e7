-- ===== src/Auth/Tests.antt =====
-- Requests at a server that requires OAuth. The time is a number; the token "good" expires at 10.
use kube_mcp_server.Base.{
  ℕ, String, ◌≡◌, refl, ◌↔◌, ◌⊎◌, inl, inr, true, false, Option, none, some, [], ◌==◌,
  if◌then◌else◌, ltb,
}
use kube_mcp_server.Base.Text.{strip_prefix}
use kube_mcp_server.Auth.{
  AuthConfig, Snapshot, HttpRequest, Tokens, is_open, unauthorized, served,
  authorization_middleware,
}
use kube_mcp_server.Auth.Guard.{IsAuthentic, authorization_middleware_iff}

abbrev tokens : Tokens String String ℕ
tokens = record {
  parse_signed = λ t. if t == "good" then inr t else inl "malformed";
  validate = λ audiences c now. if ltb now 10 then none else some "expired";
  verify = λ provider client token now. none;
}

abbrev config : AuthConfig
config = record {
  require_oauth = true;
  oauth_audience = "mcp";
  authorization_url = "https://issuer";
}

abbrev state : Option (Snapshot String)
state = some (record {
  oidc_provider = some "issuer";
  authorization_url = "https://issuer";
  certificate_authority = "";
  oauth_scopes = [];
  disable_dynamic_client_registration = false;
})

abbrev request : String → String → HttpRequest
request path header = record { path = path; escaped_path = path; authorization = header }

let_in :
    authorization_middleware tokens config state (request "/mcp" "Bearer good") 5
    ≡ served (some "Bearer good")
unfolding authorization_middleware is_open strip_prefix
let_in = refl

-- A provider that is configured but not there yet.
kept_out :
    authorization_middleware tokens config none (request "/mcp" "Bearer good") 5
    ≡ unauthorized (record {
      www_authenticate =
          "Bearer realm=\"Kubernetes MCP Server\", audience=\"mcp\", error=\"temporarily_unavailable\"";
      message = "OIDC provider is not available";
    })
unfolding authorization_middleware is_open strip_prefix
kept_out = refl

-- A path that climbs out of a well-known endpoint is not open.
climbs : is_open (request "/.well-known/openid-configuration/../../mcp" "") ≡ false
unfolding is_open strip_prefix
climbs = refl

authorization_middleware_iff_example :
    let r = request "/mcp" "Bearer good" in
    let verdict = authorization_middleware tokens config state r 5 in
    ((verdict ≡ served none) ↔ ((is_open r ≡ true) ⊎ (config.require_oauth ≡ false)))
    × ((h : String) → verdict ≡ served (some h) → h ≡ "Bearer good")
    × ((verdict ≡ served (some "Bearer good")) ↔ (
        (is_open r ≡ false) × (config.require_oauth ≡ true) × IsAuthentic tokens config state r 5))
authorization_middleware_iff_example =
    authorization_middleware_iff tokens config state (request "/mcp" "Bearer good") 5
