-- ===== src/Auth/WellKnown/Served.antt =====
-- What the well-known endpoints answer (pkg/http/wellknown.go).
use Prim.Native.String as Str
use kube_mcp_server.Base.{
  String, Bool, true, false, not, ◌⊎◌, inl, inr, Option, none, some, List, [], ◌∷◌, ◌==◌, ◌≡◌, refl,
  ◌∙◌, arith, if◌then◌else◌, ltb, contains, length, eq_iff, Bool-cases, All,
}
use kube_mcp_server.Base.Assoc.{Assoc, lookup, insert, lookup-insert}
use kube_mcp_server.Base.Text.{has_prefix}
use kube_mcp_server.Auth.{Snapshot}
use kube_mcp_server.Auth.WellKnown.{
  oauth_authorization_server_endpoint, oauth_protected_resource_endpoint, Web, WellKnownRequest,
  WellKnownResponse, http_error, metadata, FetchError, remove, keep_allowed,
  allowed_response_headers, apply_config_overrides, respond, respond_generated, serve_fetched,
  serve_at, serve_http, Cache, Served, read_upstream, authorization_url_of,
  fetch_open_id_configuration, generate_protected_resource, build_resource_url,
}

lookup-remove :
    {V : Type 0} (key other : String) (entries : Assoc V)
    → lookup other (remove key entries) ≡ (if key == other then none else lookup other entries)
unfolding lookup remove
lookup-remove key other [] = ground arith
lookup-remove key other (entry ∷ later) = ground (
  arith,
  lookup-remove key other later,
  eq_iff key other,
  eq_iff entry.0 key,
  eq_iff entry.0 other,
)

keep_allowed-All :
    (canonical : String → String) (headers : List (String × String))
    → All
        (λ h. contains allowed_response_headers (canonical h.0) ≡ true)
        (keep_allowed canonical headers)
keep_allowed-All canonical [] = tt
keep_allowed-All canonical (h ∷ headers) =
    by_header (keep_allowed-All canonical headers)
      (Bool-cases (contains allowed_response_headers (canonical h.0)))
  where
    by_header :
        All
          (λ x. contains allowed_response_headers (canonical x.0) ≡ true)
          (keep_allowed canonical headers)
        → (contains allowed_response_headers (canonical h.0) ≡ true)
          ⊎ (contains allowed_response_headers (canonical h.0) ≡ false)
        → All
            (λ x. contains allowed_response_headers (canonical x.0) ≡ true)
            (keep_allowed canonical (h ∷ headers))
    by_header kept (inl e) = rw (keep_allowed, e) (e, kept)
    by_header kept (inr e) = rw (keep_allowed, e) kept

module _ {V P W : Type 0} (web : Web V P W) where
  -- The metadata is what the snapshot demands, and the headers are allowed ones.
  abbrev pub Obeys : Option (Snapshot P) → WellKnownResponse V → Type 0
  Obeys state (http_error status text) = Unit
  Obeys none (metadata m headers) =
      All (λ h. contains allowed_response_headers (web.canonical h.0) ≡ true) headers
  Obeys (some s) (metadata m headers) =
      ((s.disable_dynamic_client_registration ≡ false) ⊎ (lookup "registration_endpoint" m ≡ none))
      × ((s.oauth_scopes ≡ []) ⊎ (lookup "scopes_supported" m ≡ some (web.texts s.oauth_scopes)))
      × All (λ h. contains allowed_response_headers (web.canonical h.0) ≡ true) headers

  closed_lookup :
      (s : Snapshot P) (m : Assoc V)
      → s.disable_dynamic_client_registration ≡ true
      → lookup "registration_endpoint" (apply_config_overrides web (some s) m) ≡ none
  unfolding apply_config_overrides
  closed_lookup s m h =
      let closed =
        insert "require_request_uri_registration" (web.boolean false)
          (remove "registration_endpoint" m) in
      let gone : lookup "registration_endpoint" closed ≡ none =
        lookup-insert "require_request_uri_registration" "registration_endpoint" (web.boolean false)
          (remove "registration_endpoint" m)
        ∙ lookup-remove "registration_endpoint" "registration_endpoint" m in
      rw h (by_scopes closed gone (Bool-cases (ltb 0 (length s.oauth_scopes))))
    where
      by_scopes :
          (closed : Assoc V)
          → lookup "registration_endpoint" closed ≡ none
          → (ltb 0 (length s.oauth_scopes) ≡ true) ⊎ (ltb 0 (length s.oauth_scopes) ≡ false)
          → lookup "registration_endpoint" (
              if ltb 0 (length s.oauth_scopes)
              then insert "scopes_supported" (web.texts s.oauth_scopes) closed
              else closed)
            ≡ none
      by_scopes closed gone (inl e) = rw e (
          lookup-insert "scopes_supported" "registration_endpoint" (web.texts s.oauth_scopes) closed
          ∙ gone)
      by_scopes closed gone (inr e) = rw e gone

  scopes_lookup :
      (s : Snapshot P) (m : Assoc V)
      → ltb 0 (length s.oauth_scopes) ≡ true
      → lookup "scopes_supported" (apply_config_overrides web (some s) m)
        ≡ some (web.texts s.oauth_scopes)
  unfolding apply_config_overrides
  scopes_lookup s m h = rw h (
      lookup-insert "scopes_supported" "scopes_supported" (web.texts s.oauth_scopes) (
        if s.disable_dynamic_client_registration
        then insert "require_request_uri_registration" (web.boolean false)
            (remove "registration_endpoint" m)
        else m))

  no_scopes : (scopes : List String) → (scopes ≡ []) ⊎ (ltb 0 (length scopes) ≡ true)
  no_scopes [] = inl refl
  no_scopes (x ∷ xs) = inr (ground arith)

  respond-Obeys :
      (w : W) (m : Assoc V) (headers : List (String × String))
      → Obeys (web.snapshot w) (respond web w m headers)
  respond-Obeys w m headers = by_snapshot (web.snapshot w)
    where
      by_snapshot :
          (state : Option (Snapshot P))
          → Obeys state
              (metadata (apply_config_overrides web state m) (keep_allowed web.canonical headers))
      by_snapshot none = keep_allowed-All web.canonical headers
      by_snapshot (some s) = (
        elim (Bool-cases s.disable_dynamic_client_registration) [
          | inl e ↦ inr (closed_lookup s m e)
          | inr e ↦ inl e
        ],
        elim (no_scopes s.oauth_scopes) [ inl e ↦ inl e | inr e ↦ inr (scopes_lookup s m e) ],
        keep_allowed-All web.canonical headers,
      )

  abbrev pub ServedObeys : Served web → Type 0
  ServedObeys (response, cache, w) = Obeys (web.snapshot w) response

  ite-ServedObeys :
      (x y : Served web) (b : Bool)
      → ServedObeys x
      → ServedObeys y
      → ServedObeys (if b then x else y)
  ite-ServedObeys x y true h k = h
  ite-ServedObeys x y false h k = k

  respond_generated-Obeys :
      (generate : Assoc V → Assoc V) (fetched : (FetchError ⊎ Option (Assoc V)) × Cache web × W)
      → ServedObeys (respond_generated web generate fetched)
  respond_generated-Obeys generate (inl e, cache, w) = tt
  respond_generated-Obeys generate (inr none, cache, w) = tt
  respond_generated-Obeys generate (inr (some m), cache, w) = respond-Obeys w (generate m) []

  serve_fetched-Obeys :
      (r : WellKnownRequest) (cache : Cache web)
      (fetched : (FetchError ⊎ (Option (Assoc V) × List (String × String))) × W)
      → ServedObeys (serve_fetched web r cache fetched)
  serve_fetched-Obeys r cache (inl e, w) = tt
  serve_fetched-Obeys r cache (inr (some m, headers), w) = respond-Obeys w m headers
  serve_fetched-Obeys r cache (inr (none, headers), w) =
      ite-ServedObeys _ _ (has_prefix r.escaped_path oauth_authorization_server_endpoint)
        (respond_generated-Obeys (λ m. m) (fetch_open_id_configuration web cache w))
        (ite-ServedObeys _ _ (has_prefix r.escaped_path oauth_protected_resource_endpoint)
          (respond_generated-Obeys
            (λ m. generate_protected_resource web.texts m (build_resource_url web r))
            (fetch_open_id_configuration web cache w))
          tt)

  serve_at-Obeys :
      (r : WellKnownRequest) (url : String) (upstream : String ⊎ String) (cache : Cache web) (w : W)
      → ServedObeys (serve_at web r url upstream cache w)
  serve_at-Obeys r url (inl e) cache w = tt
  serve_at-Obeys r url (inr upstream) cache w =
      let answer = web.ask r.method upstream w in
      ite-ServedObeys _ _ (not (has_prefix upstream (Str.◌++◌ url "/"))) tt
        (serve_fetched-Obeys r cache (read_upstream answer.0, answer.1))

  -- Every answer of the well-known endpoints, in every state of the cache: where it is metadata and
  -- the snapshot at that moment disables dynamic client registration, the metadata names no
  -- registration endpoint; where the snapshot has scopes, they are the supported scopes of the metadata;
  -- and the headers that come from the authorization server are allowed ones.
  pub serve_http-Obeys :
      (r : WellKnownRequest) (cache : Cache web) (w : W) → ServedObeys (serve_http web r cache w)
  unfolding serve_http
  serve_http-Obeys r cache w = ite-ServedObeys _ _ (authorization_url_of web w == "") tt (
      serve_at-Obeys r (authorization_url_of web w)
        (web.join_path (authorization_url_of web w) r.escaped_path) cache w)
