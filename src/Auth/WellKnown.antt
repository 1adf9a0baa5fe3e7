-- ===== src/Auth/WellKnown.antt =====
-- The metadata of the well-known endpoints (pkg/http/wellknown.go). The authorization server, the
-- shared OAuth state, url.JoinPath and JSON are parameters. The state may change whenever the
-- authorization server is asked; the concurrent fetches that singleflight joins are one fetch. Of the
-- headers of an answer only those from the authorization server are modelled.
pub mod Fresh
pub mod Served
mod Tests
use Prim.Native.String as Str
use kube_mcp_server.Base.{
  ℕ, ◌-◌, String, Bool, true, false, not, ◌&&◌, ◌||◌, ◌⊎◌, inl, inr, Option, none, some, List, [],
  ◌∷◌, ◌==◌, ◌!=◌, if◌then◌else◌, ltb, eqb, contains, is_some, length,
}
use kube_mcp_server.Base.Assoc.{Assoc, lookup, insert}
use kube_mcp_server.Base.Text.{strip_prefix, has_prefix, trim_last_slash}
use kube_mcp_server.Auth.{Snapshot}

abbrev pub oauth_authorization_server_endpoint : String
oauth_authorization_server_endpoint = "/.well-known/oauth-authorization-server"

abbrev pub oauth_protected_resource_endpoint : String
oauth_protected_resource_endpoint = "/.well-known/oauth-protected-resource"

abbrev pub open_id_configuration_endpoint : String
open_id_configuration_endpoint = "/.well-known/openid-configuration"

-- 5 minutes
abbrev pub oidc_config_cache_ttl : ℕ
oidc_config_cache_ttl = 300_000_000_000

abbrev pub allowed_response_headers : List String
allowed_response_headers =
    "Cache-Control" ∷ "Date" ∷ "Etag" ∷ "Expires" ∷ "Last-Modified" ∷ "Pragma" ∷ []

pub record WellKnownRequest : Type 0 where
  pub method : String
  pub escaped_path : String
  pub host : String
  pub has_tls : Bool
  pub forwarded_proto : String
  pub forwarded_host : String

-- What the authorization server answers: its body is an error of decoding, `null` or an object.
pub data Upstream (V : Type 0) : Type 0 where
  failed : String → Upstream V
  answered : ℕ → String ⊎ Option (Assoc V) → List (String × String) → Upstream V

pub record WellKnownSettings : Type 0 where
  pub server_url : String
  pub trust_proxy_headers : Bool

pub record Web (V P W : Type 0) : Type 0 where
  pub settings : WellKnownSettings
  pub snapshot : W → Option (Snapshot P)
  pub now : W → ℕ
  pub ask : String → String → W → Upstream V × W
  pub join_path : String → String → String ⊎ String
  pub canonical : String → String
  pub texts : List String → V
  pub boolean : Bool → V

pub record OidcConfigCache (V : Type 0) : Type 0 where
  pub config : Assoc V
  pub time : ℕ
  pub url : String

pub data WellKnownResponse (V : Type 0) : Type 0 where
  http_error : ℕ → String → WellKnownResponse V
  metadata : Assoc V → List (String × String) → WellKnownResponse V

pub data FetchError : Type 0 where
  request_failed bad_body : String → FetchError
  bad_status : ℕ → FetchError

-- delete(m, key)
unfoldable pub remove : {V : Type 0} → String → Assoc V → Assoc V
remove key [] = []
remove key (entry ∷ later) =
    let rest = remove key later in if entry.0 == key then rest else entry ∷ rest

abbrev pub keep_allowed : (String → String) → List (String × String) → List (String × String)
keep_allowed canonical [] = []
keep_allowed canonical (h ∷ headers) =
    if contains allowed_response_headers (canonical h.0)
    then h ∷ keep_allowed canonical headers
    else keep_allowed canonical headers

-- A status of 404 is no metadata.
unfoldable pub read_upstream :
    {V : Type 0} → Upstream V → FetchError ⊎ (Option (Assoc V) × List (String × String))
read_upstream (failed e) = inl (request_failed e)
read_upstream (answered status body headers) =
    if eqb status 404
    then inr (none, [])
    else if ltb status 200 || not (ltb status 300)
    then inl (bad_status status)
    else elim body [ inl e ↦ inl (bad_body e) | inr m ↦ inr (m, headers) ]

-- GenerateProtectedResourceMetadata of the default generator.
unfoldable pub generate_protected_resource :
    {V : Type 0} → (List String → V) → Assoc V → String → Assoc V
unfolding lookup insert
generate_protected_resource {V} texts oidc url =
    let first : Assoc V = ("authorization_servers", texts (url ∷ [])) ∷ [] in
    let scoped : Assoc V = elim (lookup "scopes_supported" oidc) [
      | none ↦ first
      | some scopes ↦ insert "scopes_supported" scopes first
    ] in
    insert "bearer_methods_supported" (texts ("header" ∷ [])) scoped

module _ {V P W : Type 0} (web : Web V P W) where
  -- authorizationURL
  unfoldable pub authorization_url_of : W → String
  unfolding trim_last_slash
  authorization_url_of w = elim (web.snapshot w) [
    | none ↦ ""
    | some s ↦ trim_last_slash s.authorization_url
  ]

  -- buildResourceURL
  unfoldable pub build_resource_url : WellKnownRequest → String
  unfolding trim_last_slash strip_prefix
  build_resource_url r =
      if web.settings.server_url != ""
      then trim_last_slash web.settings.server_url
      else if web.settings.trust_proxy_headers
      then Str.◌++◌
          (if not r.has_tls && not (has_prefix r.forwarded_proto "https")
            then "http://"
            else "https://")
          (if r.forwarded_host != "" then r.forwarded_host else r.host)
      else Str.◌++◌ (if not r.has_tls then "http://" else "https://") r.host

  abbrev pub Cache : Type 0
  Cache = Option (OidcConfigCache V)

  -- What a fetch makes of the cache: only metadata is kept.
  abbrev pub keep_fetched :
      String
      → Cache
      → (FetchError ⊎ (Option (Assoc V) × List (String × String))) × W
      → (FetchError ⊎ Option (Assoc V)) × Cache × W
  keep_fetched url cache (inl e, w) = (inl e, cache, w)
  keep_fetched url cache (inr (none, headers), w) = (inr none, cache, w)
  keep_fetched url cache (inr (some m, headers), w) =
      (inr (some m), some (record { config = m; time = web.now w; url = url }), w)

  abbrev pub fetch_anew : String → Cache → W → (FetchError ⊎ Option (Assoc V)) × Cache × W
  fetch_anew url cache w =
      let (reply, w') = web.ask "GET" (Str.◌++◌ url open_id_configuration_endpoint) w in
      keep_fetched url cache (read_upstream reply, w')

  abbrev pub is_current : String → W → OidcConfigCache V → Bool
  is_current url w c = c.url == url && ltb (web.now w - c.time) oidc_config_cache_ttl

  -- fetchOpenIDConfiguration
  unfoldable pub fetch_open_id_configuration :
      Cache → W → (FetchError ⊎ Option (Assoc V)) × Cache × W
  unfolding authorization_url_of read_upstream
  fetch_open_id_configuration none w = fetch_anew (authorization_url_of w) none w
  fetch_open_id_configuration (some c) w =
      if is_current (authorization_url_of w) w c
      then (inr (some c.config), some c, w)
      else fetch_anew (authorization_url_of w) (some c) w

  -- applyConfigOverrides
  unfoldable pub apply_config_overrides : Option (Snapshot P) → Assoc V → Assoc V
  unfolding remove insert
  apply_config_overrides none m = m
  apply_config_overrides (some s) m =
      let closed =
        if s.disable_dynamic_client_registration
        then insert "require_request_uri_registration" (web.boolean false)
            (remove "registration_endpoint" m)
        else m in
      if ltb 0 (length s.oauth_scopes)
      then insert "scopes_supported" (web.texts s.oauth_scopes) closed
      else closed

  abbrev pub respond : W → Assoc V → List (String × String) → WellKnownResponse V
  respond w m headers =
      metadata (apply_config_overrides (web.snapshot w) m) (keep_allowed web.canonical headers)

  abbrev pub Served : Type 0
  Served = WellKnownResponse V × Cache × W

  -- What is answered for metadata that the server itself generates from the OIDC configuration.
  abbrev pub respond_generated :
      (Assoc V → Assoc V) → (FetchError ⊎ Option (Assoc V)) × Cache × W → Served
  respond_generated generate (inl e, cache, w) =
      (http_error 500 "Failed to generate well-known metadata", cache, w)
  respond_generated generate (inr none, cache, w) =
      (http_error 404 "Failed to fetch well-known metadata", cache, w)
  respond_generated generate (inr (some m), cache, w) = (respond w (generate m) [], cache, w)

  -- With the upstream's answer: without metadata it is generated, for two of the endpoints.
  abbrev pub serve_fetched :
      WellKnownRequest
      → Cache
      → (FetchError ⊎ (Option (Assoc V) × List (String × String))) × W
      → Served
  serve_fetched r cache (inl e, w) =
      (http_error 500 "Failed to fetch well-known metadata", cache, w)
  serve_fetched r cache (inr (some m, headers), w) = (respond w m headers, cache, w)
  serve_fetched r cache (inr (none, headers), w) =
      if has_prefix r.escaped_path oauth_authorization_server_endpoint
      then respond_generated (λ m. m) (fetch_open_id_configuration cache w)
      else if has_prefix r.escaped_path oauth_protected_resource_endpoint
      then respond_generated (λ m. generate_protected_resource web.texts m (build_resource_url r))
          (fetch_open_id_configuration cache w)
      else (http_error 404 "Failed to fetch well-known metadata", cache, w)

  abbrev pub serve_at : WellKnownRequest → String → String ⊎ String → Cache → W → Served
  serve_at r url (inl e) cache w = (http_error 400 "Invalid well-known path", cache, w)
  serve_at r url (inr upstream) cache w =
      if not (has_prefix upstream (Str.◌++◌ url "/"))
      then (http_error 400 "Invalid well-known path", cache, w)
      else let (reply, w') = web.ask r.method upstream w in
        serve_fetched r cache (read_upstream reply, w')

  -- ServeHTTP
  unfoldable pub serve_http : WellKnownRequest → Cache → W → Served
  unfolding authorization_url_of fetch_open_id_configuration apply_config_overrides read_upstream
      strip_prefix generate_protected_resource build_resource_url
  serve_http r cache w =
      if authorization_url_of w == ""
      then (http_error 404 "Authorization URL is not configured", cache, w)
      else serve_at r (authorization_url_of w)
          (web.join_path (authorization_url_of w) r.escaped_path) cache w
