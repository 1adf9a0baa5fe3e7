-- ===== src/Config/Valid.antt =====
-- What a configuration that passes validation satisfies (pkg/config/config.go, pkg/config/tls.go).
use kube_mcp_server.Base.{
  String, ◌≡◌, ◌≢◌, refl, ◌↔◌, ◌⊎◌, inl, inr, Bool, true, false, Option, none, some, List, [], ◌∷◌,
  ◌==◌, arith, eq_iff, All, Bool-cases,
}
use kube_mcp_server.Base.Int.{pos, ltz}
use kube_mcp_server.Config.{
  StaticConfig, Surroundings, ConfigError, UrlError, ◌then_check◌, first_error, refuse_if,
  is_secure_http_scheme, tls_scheme_error, validate_url_requires_tls, append_error, tls_errors,
  join_errors, validate_require_tls, validate_cluster_auth_mode, validate_http, checks, normalize,
  validate, resolve_cluster_auth_mode,
}

-- A URL that is not set, or has a scheme with TLS.
abbrev pub IsSecure : {R : Type 0} → Surroundings R → String → Type 0
IsSecure env url =
    (url ≡ "")
    ⊎ ((scheme : String) × (env.parse_url url ≡ inr scheme) × (is_secure_http_scheme scheme ≡ true))

-- The settings agree with each other.
pub record IsCoherent {R : Type 0} (env : Surroundings R) (c : StaticConfig R) : Type 0 where
  pub without_oauth :
      c.require_oauth ≡ false
      → (c.oauth_audience ≡ "")
        × (c.authorization_url ≡ "")
        × (c.server_url ≡ "")
        × (c.certificate_authority ≡ "")
  pub mode_known :
      (resolve_cluster_auth_mode c ≡ "passthrough") ⊎ (resolve_cluster_auth_mode c ≡ "kubeconfig")
  pub passthrough_has_token : resolve_cluster_auth_mode c ≡ "passthrough" → c.require_oauth ≡ true
  pub exchange_has_token :
      (c.token_exchange_strategy ≢ "") ⊎ (c.sts_audience ≢ "")
      → (c.require_oauth ≡ true) × (resolve_cluster_auth_mode c ≡ "passthrough")
  pub urls_secure :
      c.require_tls ≡ true
      → IsSecure env c.authorization_url × IsSecure env c.server_url × IsSecure env c.sse_base_url
  pub cert_with_key : (c.tls_cert ≡ "") ↔ (c.tls_key ≡ "")
  pub rate_not_negative : env.is_negative c.rate_limit_rps ≡ false
  pub burst_not_negative : ltz c.rate_limit_burst (pos 0) ≡ false

then_none : (a b : Option ConfigError) → (a then_check b) ≡ none → (a ≡ none) × (b ≡ none)
then_none none b e = (refl, e)
then_none (some x) b e = ground (arith, e)

first_error-none : (os : List (Option ConfigError)) → first_error os ≡ none → All (λ o. o ≡ none) os
first_error-none [] h = record {}
first_error-none (o ∷ os) h =
    let (first, rest) = then_none o (first_error os) h in (first, first_error-none os rest)

refuse-none : (b : Bool) (e : ConfigError) → refuse_if b e ≡ none → b ≡ false
refuse-none b e h = ground (arith, h)

appended-none :
    (o : Option UrlError) (errs : List UrlError)
    → append_error o errs ≡ []
    → (o ≡ none) × (errs ≡ [])
appended-none o errs e = (ground (arith, e), ground (arith, e))

joined-none : (errs : List UrlError) → join_errors errs ≡ none → errs ≡ []
joined-none errs e = ground (arith, e)

abbrev urls_of : {R : Type 0} → StaticConfig R → List (String × String)
urls_of c =
    ("authorization_url", c.authorization_url)
    ∷ ("server_url", c.server_url)
    ∷ ("sse_base_url", c.sse_base_url)
    ∷ []

mode_lem :
    {R : Type 0} (c : StaticConfig R)
    → validate_cluster_auth_mode c ≡ none
    → ((c.cluster_auth_mode ≡ "")
        ⊎ ((c.cluster_auth_mode ≡ "passthrough") ⊎ (c.cluster_auth_mode ≡ "kubeconfig")))
      × (c.cluster_auth_mode ≡ "passthrough" → c.require_oauth ≡ true)
      × ((c.token_exchange_strategy ≢ "") ⊎ (c.sts_audience ≢ "")
          → (c.require_oauth ≡ true) × (c.cluster_auth_mode ≢ "kubeconfig"))
unfolding validate_cluster_auth_mode
mode_lem c h = (
  ground (
    arith,
    h,
    eq_iff c.cluster_auth_mode "",
    eq_iff c.cluster_auth_mode "passthrough",
    eq_iff c.cluster_auth_mode "kubeconfig",
  ),
  λ e. ground (arith, h, e, eq_iff c.cluster_auth_mode "passthrough"),
  λ exchange. (
    ground (arith, h, exchange, eq_iff c.token_exchange_strategy "", eq_iff c.sts_audience ""),
    λ e. ground (
      arith,
      h,
      exchange,
      e,
      eq_iff c.cluster_auth_mode "kubeconfig",
      eq_iff c.token_exchange_strategy "",
      eq_iff c.sts_audience "",
    ),
  ),
)

module _ {R : Type 0} (env : Surroundings R) where
  scheme-secure :
      (field : String) (answer : String ⊎ String)
      → tls_scheme_error field answer ≡ none
      → (scheme : String) × (answer ≡ inr scheme) × (is_secure_http_scheme scheme ≡ true)
  scheme-secure field (inl e) h = ground (arith, h)
  scheme-secure field (inr scheme) h = (scheme, refl, ground (arith, h))

  url-IsSecure :
      (url field : String) → validate_url_requires_tls env url field ≡ none → IsSecure env url
  unfolding validate_url_requires_tls
  url-IsSecure url field h = elim (Bool-cases (url == "")) [
    | inl empty ↦ inl ((eq_iff url "").0 empty)
    | inr set ↦ inr (scheme-secure field (env.parse_url url) (rw set at h))
  ]

  urls-IsSecure :
      (c : StaticConfig R)
      → validate_require_tls env c ≡ none
      → c.require_tls ≡ true
      → IsSecure env c.authorization_url × IsSecure env c.server_url × IsSecure env c.sse_base_url
  unfolding validate_require_tls tls_errors
  urls-IsSecure c h required =
      let errors = joined-none (tls_errors env (urls_of c)) (rw required at h) in
      let (e1, r1) =
        appended-none (validate_url_requires_tls env c.authorization_url "authorization_url")
          (tls_errors env (("server_url", c.server_url) ∷ ("sse_base_url", c.sse_base_url) ∷ []))
          errors in
      let (e2, r2) =
        appended-none (validate_url_requires_tls env c.server_url "server_url")
          (tls_errors env (("sse_base_url", c.sse_base_url) ∷ [])) r1 in
      let (e3, r3) =
        appended-none (validate_url_requires_tls env c.sse_base_url "sse_base_url") [] r2 in
      (
        url-IsSecure c.authorization_url "authorization_url" e1,
        url-IsSecure c.server_url "server_url" e2,
        url-IsSecure c.sse_base_url "sse_base_url" e3,
      )

  resolved_lem :
      (c : StaticConfig R)
      → validate_cluster_auth_mode c ≡ none
      → ((resolve_cluster_auth_mode c ≡ "passthrough")
          ⊎ (resolve_cluster_auth_mode c ≡ "kubeconfig"))
        × (resolve_cluster_auth_mode c ≡ "passthrough" → c.require_oauth ≡ true)
        × (c.require_oauth ≡ true
            → c.cluster_auth_mode ≢ "kubeconfig"
            → resolve_cluster_auth_mode c ≡ "passthrough")
  unfolding resolve_cluster_auth_mode
  resolved_lem c h =
      let (known, passthrough, exchange) = mode_lem c h in
      elim (Bool-cases (c.cluster_auth_mode == "")) [
        | inr set ↦ rw set (
          ground (arith, known, set, eq_iff c.cluster_auth_mode ""),
          passthrough,
          λ oauth other. ground (arith, known, set, other, eq_iff c.cluster_auth_mode ""),
        )
        | inl unset ↦ elim (Bool-cases c.require_oauth) [
          | inl oauth ↦ rw (unset, oauth) (inl refl, λ _. refl, λ _ _. refl)
          | inr open_server ↦
              rw (unset, open_server)
                (
                  inr refl,
                  λ e. ground (arith, eq_iff "kubeconfig" "passthrough", e),
                  λ e. ground (arith, e),
                )
        ]
      ]

  http_lem :
      (c : StaticConfig R)
      → validate_http env c ≡ none
      → (env.is_negative c.rate_limit_rps ≡ false) × (ltz c.rate_limit_burst (pos 0) ≡ false)
  unfolding validate_http
  http_lem c h = (ground (arith, h), ground (arith, h))

  checks-IsCoherent : (c : StaticConfig R) → All (λ o. o ≡ none) (checks env c) → IsCoherent env c
  unfolding checks
  checks-IsCoherent c (_, (_, (_, (oauth, (_, (_, (pair, (_, (_, (tls, (mode, (http, _)))))))))))) =
      let (_, _, exchange) = mode_lem c mode in
      let (known, passthrough, resolved) = resolved_lem c mode in
      let no_oauth = refuse-none _ _ oauth in
      let both = refuse-none _ _ pair in
      record {
        without_oauth = λ off. (
          ground (arith, no_oauth, off, eq_iff c.oauth_audience ""),
          ground (arith, no_oauth, off, eq_iff c.authorization_url ""),
          ground (arith, no_oauth, off, eq_iff c.server_url ""),
          ground (arith, no_oauth, off, eq_iff c.certificate_authority ""),
        );
        mode_known = known;
        passthrough_has_token = passthrough;
        exchange_has_token =
            λ e. let (required, other) = exchange e in (required, resolved required other);
        urls_secure = urls-IsSecure c tls;
        cert_with_key = (
          λ e. ground (arith, both, e, eq_iff c.tls_cert "", eq_iff c.tls_key ""),
          λ e. ground (arith, both, e, eq_iff c.tls_cert "", eq_iff c.tls_key ""),
        );
        rate_not_negative = (http_lem c http).0;
        burst_not_negative = (http_lem c http).1;
      }

  -- A configuration that passes validation, with its white space trimmed, agrees with itself: without
  -- OAuth neither an audience, an authorization URL, a server URL nor a certificate authority is set,
  -- the resolved cluster authentication is passthrough or kubeconfig, passthrough, an exchange strategy
  -- and an exchange audience come with OAuth, and the latter two with passthrough; with TLS required
  -- the authorization, server and SSE base URLs that are set have a scheme with TLS; a certificate
  -- comes with its key, and neither the rate limit nor its burst is negative.
  pub validate-IsCoherent :
      (c : StaticConfig R) → (validate env c).0 ≡ none → IsCoherent env (validate env c).1
  unfolding validate
  validate-IsCoherent c h =
      checks-IsCoherent (normalize c) (first_error-none (checks env (normalize c)) h)
