-- ===== src/Auth.antt =====
-- Authorization of HTTP requests: `AuthorizationMiddleware`, `write401`, `ParseJWTClaims`,
-- `ValidateOffline` and `ValidateWithProvider` of pkg/http/authorization.go, with the `Snapshot` of
-- pkg/oauth/state.go. The libraries for JWT and OIDC are parameters, and so is the next handler.
pub mod Guard
pub mod State
pub mod WellKnown
mod Tests
use Prim.Native.String as Str
use kube_mcp_server.Base.{
  String, Bool, true, false, not, ◌&&◌, ◌||◌, ◌⊎◌, inl, inr, Option, none, some, List, [], ◌∷◌,
  ◌==◌, ◌!=◌, if◌then◌else◌, any, contains,
}
use kube_mcp_server.Base.Text.{has_prefix, trim_prefix, contains_text, strip_prefix}

-- The settings that the middleware reads.
pub record AuthConfig : Type 0 where
  pub require_oauth : Bool
  pub oauth_audience : String
  pub authorization_url : String

pub record Snapshot (P : Type 0) : Type 0 where
  pub oidc_provider : Option P
  pub authorization_url : String
  pub certificate_authority : String
  pub oauth_scopes : List String
  pub disable_dynamic_client_registration : Bool

pub record HttpRequest : Type 0 where
  pub path : String
  pub escaped_path : String
  pub authorization : String

pub record JwtClaims (C : Type 0) : Type 0 where
  pub claims : C
  pub token : String

-- The libraries: a token's claims without verification, the claims' own validation against the
-- expected audiences (its clock included), and a provider's verification of a token for a client.
pub record Tokens (C P W : Type 0) : Type 0 where
  pub parse_signed : String → String ⊎ C
  pub validate : List String → C → W → Option String
  pub verify : P → String → String → W → Option String

pub record Response : Type 0 where
  pub www_authenticate : String
  pub message : String

abbrev pub infra_paths : List String
infra_paths = "/healthz" ∷ "/metrics" ∷ "/stats" ∷ []

abbrev pub well_known_endpoints : List String
well_known_endpoints =
    "/.well-known/oauth-authorization-server" ∷ "/.well-known/oauth-protected-resource"
    ∷ "/.well-known/openid-configuration" ∷ []

unfoldable pub is_well_known : String → Bool
unfolding contains_text
is_well_known path =
    not (contains_text path "..")
    && any (λ ep. path == ep || has_prefix path (Str.◌++◌ ep "/")) well_known_endpoints

unfoldable pub is_open : HttpRequest → Bool
unfolding is_well_known
is_open r = contains infra_paths r.path || is_well_known r.escaped_path

abbrev pub challenge : String → String
challenge audience =
    Str.◌++◌ "Bearer realm=\"Kubernetes MCP Server\""
      (if audience != "" then Str.◌++◌ ", audience=\"" (Str.◌++◌ audience "\"") else "")

unfoldable pub write401 : String → String → String → Response
write401 header error_type message = record {
  www_authenticate = Str.◌++◌ header (Str.◌++◌ ", error=\"" (Str.◌++◌ error_type "\""));
  message = message;
}

-- What the middleware does: it answers 401, or it calls the next handler, in whose context the
-- validated header may stand.
pub data Verdict : Type 0 where
  unauthorized : Response → Verdict
  served : Option String → Verdict

abbrev pub provider_of : {P : Type 0} → Option (Snapshot P) → Option P
provider_of none = none
provider_of (some snapshot) = snapshot.oidc_provider

abbrev pub reject : AuthConfig → String → String → Verdict
reject cfg error_type message =
    unauthorized (write401 (challenge cfg.oauth_audience) error_type message)

-- The last test's error decides.
abbrev pub conclude : AuthConfig → String → Option String → Verdict
conclude cfg header none = served (some header)
conclude cfg header (some e) = reject cfg "invalid_token" "Unauthorized: Invalid token"

module _ {C P W : Type 0} (tokens : Tokens C P W) where
  abbrev pub with_token : String → String ⊎ C → String ⊎ JwtClaims C
  with_token token (inl e) = inl e
  with_token token (inr claims) = inr (record { claims = claims; token = token })

  unfoldable pub parse_jwt_claims : String → String ⊎ JwtClaims C
  parse_jwt_claims token = with_token token (tokens.parse_signed token)

  unfoldable pub validate_offline : String → JwtClaims C → W → Option String
  validate_offline audience c w =
      tokens.validate (if audience != "" then audience ∷ [] else []) c.claims w

  unfoldable pub validate_with_provider : P → String → JwtClaims C → W → Option String
  validate_with_provider provider audience c w = tokens.verify provider audience c.token w

  -- The online test, with the provider of the moment.
  abbrev pub check_online : AuthConfig → String → JwtClaims C → Option P → W → Verdict
  check_online cfg header c none w =
      if cfg.authorization_url != ""
      then reject cfg "temporarily_unavailable" "OIDC provider is not available"
      else conclude cfg header none
  check_online cfg header c (some provider) w =
      conclude cfg header (validate_with_provider provider cfg.oauth_audience c w)

  -- With the result of the offline test.
  abbrev pub check_offline :
      AuthConfig → String → JwtClaims C → Option (Snapshot P) → Option String → W → Verdict
  check_offline cfg header c state (some e) w = conclude cfg header (some e)
  check_offline cfg header c state none w = check_online cfg header c (provider_of state) w

  abbrev pub check_claims :
      AuthConfig → String → Option (Snapshot P) → String ⊎ JwtClaims C → W → Verdict
  check_claims cfg header state (inl e) w = conclude cfg header (some e)
  check_claims cfg header state (inr c) w =
      check_offline cfg header c state (validate_offline cfg.oauth_audience c w) w

  unfoldable pub authorization_middleware :
      AuthConfig → Option (Snapshot P) → HttpRequest → W → Verdict
  unfolding parse_jwt_claims validate_offline validate_with_provider write401
  authorization_middleware cfg state r w =
      if is_open r
      then served none
      else if not cfg.require_oauth
      then served none
      else if r.authorization == "" || not (has_prefix r.authorization "Bearer ")
      then reject cfg "missing_token" "Unauthorized: Bearer token required"
      else check_claims cfg r.authorization state
          (parse_jwt_claims (trim_prefix r.authorization "Bearer ")) w
