-- ===== src/Auth/WellKnown/Tests.antt =====
-- The well-known endpoints and the reload of the OAuth state at concrete inputs. The world is a clock.
use Prim.Native.String as Str
use kube_mcp_server.Base.{
  ℕ, ◌+◌, String, true, false, ◌⊎◌, inr, Option, none, some, [], ◌∷◌, ◌==◌, ◌≡◌, refl,
  if◌then◌else◌, deref,
}
use kube_mcp_server.Base.Assoc.{insert}
use kube_mcp_server.Base.Text.{strip_prefix, trim_last_slash}
use kube_mcp_server.Auth.{Snapshot}
use kube_mcp_server.Auth.State.{OauthConfig, handle_sighup, empty_snapshot}
use kube_mcp_server.Auth.State.Followed.{follows, handle_sighup-follows}
use kube_mcp_server.Auth.WellKnown.{
  Web, WellKnownRequest, metadata, answered, serve_http, authorization_url_of,
  fetch_open_id_configuration, read_upstream, apply_config_overrides, remove, OidcConfigCache,
}
use kube_mcp_server.Auth.WellKnown.Served.{ServedObeys, serve_http-Obeys}
use kube_mcp_server.Auth.WellKnown.Fresh.{
  IsHonest, IsRecent, CacheHonest, fetch_open_id_configuration-IsRecent,
}

abbrev closed_snapshot : Snapshot String
closed_snapshot = record {
  oidc_provider = some "issuer";
  authorization_url = "https://issuer/";
  certificate_authority = "";
  oauth_scopes = "mcp" ∷ [];
  disable_dynamic_client_registration = true;
}

-- An authorization server that has the OIDC configuration alone.
abbrev oidc_only : Web String String ℕ
oidc_only = record {
  settings = record { server_url = ""; trust_proxy_headers = false };
  snapshot = λ now. some closed_snapshot;
  now = λ now. now;
  ask = λ method url now.
      if url == "https://issuer/.well-known/openid-configuration"
      then (
        answered 200 (inr (some (("registration_endpoint", "https://issuer/register") ∷ []))) [],
        now + 1,
      )
      else (answered 404 (inr none) [], now + 1);
  join_path = λ base path. inr (Str.◌++◌ base path);
  canonical = λ h. h;
  texts = λ ts. "list";
  boolean = λ b. "false";
}

abbrev resource_request : WellKnownRequest
resource_request = record {
  method = "GET";
  escaped_path = "/.well-known/oauth-authorization-server";
  host = "localhost";
  has_tls = false;
  forwarded_proto = "";
  forwarded_host = "";
}

-- The metadata is generated, without the registration endpoint, and the configuration is cached.
generated : serve_http oidc_only resource_request none 5 ≡ (
  metadata (("require_request_uri_registration", "false") ∷ ("scopes_supported", "list") ∷ []) [],
  some (record {
    config = ("registration_endpoint", "https://issuer/register") ∷ [];
    time = 7;
    url = "https://issuer";
  }),
  7,
)
unfolding serve_http authorization_url_of fetch_open_id_configuration read_upstream
    apply_config_overrides remove insert strip_prefix trim_last_slash
generated = refl

serve_http-Obeys_example : ServedObeys oidc_only (serve_http oidc_only resource_request none 5)
serve_http-Obeys_example = serve_http-Obeys oidc_only resource_request none 5

abbrev cached_configuration : OidcConfigCache String
cached_configuration = record {
  config = ("registration_endpoint", "https://issuer/register") ∷ [];
  time = 6;
  url = "https://issuer";
}

cached_configuration-IsHonest : IsHonest oidc_only (some cached_configuration)
unfolding read_upstream
cached_configuration-IsHonest = record { before = 5; headers = []; given = refl; stored = refl }

fetch_open_id_configuration-IsRecent_example :
    CacheHonest oidc_only (fetch_open_id_configuration oidc_only (some cached_configuration) 9)
    × IsRecent oidc_only
        (authorization_url_of oidc_only 9)
        (fetch_open_id_configuration oidc_only (some cached_configuration) 9)
fetch_open_id_configuration-IsRecent_example =
    fetch_open_id_configuration-IsRecent oidc_only (some cached_configuration) 9
      cached_configuration-IsHonest

abbrev moved : OauthConfig
moved = record {
  authorization_url = "https://other";
  certificate_authority = "";
  oauth_scopes = [];
  disable_dynamic_client_registration = false;
}

-- The file names an authority with a space, which validation trims.
abbrev as_read : OauthConfig
as_read = record moved { certificate_authority = " " }

abbrev accepted : OauthConfig → ℕ → Option String × OauthConfig × ℕ
accepted cfg server = (none, record cfg { certificate_authority = "" }, server + 1)

abbrev discovered : OauthConfig → String ⊎ Option String
discovered cfg = inr (some cfg.authorization_url)

handle_sighup-follows_example :
    deref
      (handle_sighup (λ cfg. cfg) accepted discovered (inr as_read) 0 (some closed_snapshot)).1
      empty_snapshot
    ≡ follows (λ cfg. cfg) accepted discovered moved (some "https://other") closed_snapshot
handle_sighup-follows_example =
    handle_sighup-follows (λ cfg. cfg) accepted discovered as_read moved 0 1 (some closed_snapshot)
      (some "https://other") refl refl
