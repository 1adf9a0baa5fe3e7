-- ===== src/Auth/Guard.antt =====
-- What the middleware lets through (`AuthorizationMiddleware` of pkg/http/authorization.go).
use mathlib.Core.Sum.{inr-injective}
use kube_mcp_server.Base.{
  String, ◌≡◌, ◌≢◌, refl, sym, ◌↔◌, ◌⊎◌, inl, inr, true, false, not, ◌||◌, Option, none, some, ◌==◌,
  arith, eq_iff, Bool-cases, subst,
}
use kube_mcp_server.Base.Text.{has_prefix, trim_prefix, strip_prefix}
use kube_mcp_server.Auth.{
  AuthConfig, Snapshot, HttpRequest, JwtClaims, Tokens, is_open, Verdict, served, parse_jwt_claims,
  validate_offline, validate_with_provider, provider_of, conclude, check_online, check_offline,
  check_claims, authorization_middleware,
}

-- The provider's verdict on a token, where there is one; without a provider none may be configured.
abbrev pub IsVerified :
    {C P W : Type 0} → Tokens C P W → AuthConfig → JwtClaims C → Option P → W → Type 0
IsVerified tokens cfg c none w = cfg.authorization_url ≡ ""
IsVerified tokens cfg c (some provider) w =
    validate_with_provider tokens provider cfg.oauth_audience c w ≡ none

-- A bearer token that parses, is valid offline for the audience, and is verified online.
pub record IsAuthentic {C P W : Type 0} (tokens : Tokens C P W) (cfg : AuthConfig)
    (state : Option (Snapshot P)) (r : HttpRequest) (w : W) : Type 0 where
  pub bearer : has_prefix r.authorization "Bearer " ≡ true
  pub claims : JwtClaims C
  pub parsed : parse_jwt_claims tokens (trim_prefix r.authorization "Bearer ") ≡ inr claims
  pub valid : validate_offline tokens cfg.oauth_audience claims w ≡ none
  pub verified : IsVerified tokens cfg claims (provider_of state) w

-- A verdict that serves the request with a header.
abbrev Serves : String → Verdict → Type 0
Serves header v = v ≡ served (some header)

conclude_iff :
    (cfg : AuthConfig) (header : String) (o : Option String)
    → Serves header (conclude cfg header o) ↔ (o ≡ none)
conclude_iff cfg header none = (λ _. refl, λ _. refl)
conclude_iff cfg header (some e) = (λ h. ground (arith, h), λ h. ground (arith, h))

own_header : (header h : String) → served (some header) ≡ served (some h) → h ≡ header
own_header header h e = ground (arith, e)

conclude-own :
    (cfg : AuthConfig) (header h : String) (o : Option String)
    → Serves h (conclude cfg header o)
    → h ≡ header
conclude-own cfg header h none e = own_header header h e
conclude-own cfg header h (some x) e = ground (arith, e)

conclude-refuses :
    (cfg : AuthConfig) (header : String) (o : Option String) → conclude cfg header o ≢ served none
conclude-refuses cfg header none e = ground (arith, e)
conclude-refuses cfg header (some x) e = ground (arith, e)

module _ {C P W : Type 0} (tokens : Tokens C P W) where
  check_online_iff :
      (cfg : AuthConfig) (header : String) (c : JwtClaims C) (provider : Option P) (w : W)
      → Serves header (check_online tokens cfg header c provider w)
        ↔ IsVerified tokens cfg c provider w
  check_online_iff cfg header c none w = elim (Bool-cases (cfg.authorization_url == "")) [
    | inl unset ↦ (λ _. (eq_iff cfg.authorization_url "").0 unset, λ _. rw unset refl)
    | inr given ↦ (
      λ h. ground (arith, rw given at h),
      λ e. ground (arith, given, eq_iff cfg.authorization_url "", e),
    )
  ]
  check_online_iff cfg header c (some provider) w =
      conclude_iff cfg header (validate_with_provider tokens provider cfg.oauth_audience c w)

  check_offline_iff :
      (cfg : AuthConfig) (header : String) (c : JwtClaims C) (state : Option (Snapshot P))
      (o : Option String) (w : W)
      → Serves header (check_offline tokens cfg header c state o w)
        ↔ ((o ≡ none) × IsVerified tokens cfg c (provider_of state) w)
  check_offline_iff cfg header c state none w = (
    λ h. (refl, (check_online_iff cfg header c (provider_of state) w).0 h),
    λ (_, ok). (check_online_iff cfg header c (provider_of state) w).1 ok,
  )
  check_offline_iff cfg header c state (some e) w =
      (λ h. ground (arith, h), λ (e, _). ground (arith, e))

  -- The header of a request that is served is the request's own.
  online-own :
      (cfg : AuthConfig) (header h : String) (c : JwtClaims C) (provider : Option P) (w : W)
      → Serves h (check_online tokens cfg header c provider w)
      → h ≡ header
  online-own cfg header h c none w e = elim (Bool-cases (cfg.authorization_url == "")) [
    | inl unset ↦ own_header header h (rw unset at e)
    | inr given ↦ ground (arith, rw given at e)
  ]
  online-own cfg header h c (some provider) w e =
      conclude-own cfg header h (validate_with_provider tokens provider cfg.oauth_audience c w) e

  offline-own :
      (cfg : AuthConfig) (header h : String) (c : JwtClaims C) (state : Option (Snapshot P))
      (o : Option String) (w : W)
      → Serves h (check_offline tokens cfg header c state o w)
      → h ≡ header
  offline-own cfg header h c state none w e = online-own cfg header h c (provider_of state) w e
  offline-own cfg header h c state (some x) w e = ground (arith, e)

  online-refuses :
      (cfg : AuthConfig) (header : String) (c : JwtClaims C) (provider : Option P) (w : W)
      → check_online tokens cfg header c provider w ≢ served none
  online-refuses cfg header c none w e = elim (Bool-cases (cfg.authorization_url == "")) [
    | inl unset ↦ ground (arith, rw unset at e)
    | inr given ↦ ground (arith, rw given at e)
  ]
  online-refuses cfg header c (some provider) w e =
      conclude-refuses cfg header (validate_with_provider tokens provider cfg.oauth_audience c w) e

  offline-refuses :
      (cfg : AuthConfig) (header : String) (c : JwtClaims C) (state : Option (Snapshot P))
      (o : Option String) (w : W)
      → check_offline tokens cfg header c state o w ≢ served none
  offline-refuses cfg header c state none w e = online-refuses cfg header c (provider_of state) w e
  offline-refuses cfg header c state (some x) w e = ground (arith, e)

  -- What is left of the request behind the test of its header, with the parsed claims.
  abbrev Claimed : AuthConfig → Option (Snapshot P) → String ⊎ JwtClaims C → W → Type 0
  Claimed cfg state parsed w =
      (c : JwtClaims C) × (parsed ≡ inr c)
      × (validate_offline tokens cfg.oauth_audience c w ≡ none)
      × IsVerified tokens cfg c (provider_of state) w

  check_claims_iff :
      (cfg : AuthConfig) (header : String) (state : Option (Snapshot P))
      (parsed : String ⊎ JwtClaims C) (w : W)
      → (check_claims tokens cfg header state parsed w ≢ served none)
        × ((h : String) → Serves h (check_claims tokens cfg header state parsed w) → h ≡ header)
        × (Serves header (check_claims tokens cfg header state parsed w)
            ↔ Claimed cfg state parsed w)
  check_claims_iff cfg header state (inl x) w = (
    λ e. ground (arith, e),
    λ h e. ground (arith, e),
    (λ e. ground (arith, e), λ (c, e, _, _). ground (arith, e)),
  )
  check_claims_iff cfg header state (inr c) w =
      let o = validate_offline tokens cfg.oauth_audience c w in
      let offline = check_offline_iff cfg header c state o w in
      (
        offline-refuses cfg header c state o w,
        λ h e. offline-own cfg header h c state o w e,
        (
          λ e. let (valid, verified) = offline.0 e in (c, refl, valid, verified),
          λ (c', e, valid, verified).
              let same = inr-injective c c' e in
              offline.1 (
                subst
                  (λ x.
                    (validate_offline tokens cfg.oauth_audience x w ≡ none)
                    × IsVerified tokens cfg x (provider_of state) w)
                  (sym same) (valid, verified)),
        ),
      )

  not_bearer :
      (header : String)
      → has_prefix header "Bearer " ≡ true
      → header == "" || not (has_prefix header "Bearer ") ≡ true
      → ⊥
  unfolding strip_prefix
  not_bearer header bears no_bearer =
      let empty = (eq_iff header "").0 (ground (arith, bears, no_bearer)) in
      ground (arith, subst (λ h. has_prefix h "Bearer " ≡ true) empty bears)

  -- The next handler is called without a validated header exactly for an open endpoint or on a
  -- server that does not require OAuth; on any other path of a protected server it is called exactly
  -- with the request's own authorization header, and exactly if that bears a token that parses, is
  -- valid for the audience and is verified by the provider, or no provider is configured.
  pub authorization_middleware_iff :
      (cfg : AuthConfig) (state : Option (Snapshot P)) (r : HttpRequest) (w : W)
      → let verdict = authorization_middleware tokens cfg state r w in
        ((verdict ≡ served none) ↔ ((is_open r ≡ true) ⊎ (cfg.require_oauth ≡ false)))
        × ((h : String) → verdict ≡ served (some h) → h ≡ r.authorization)
        × ((verdict ≡ served (some r.authorization))
            ↔ ((is_open r ≡ false) × (cfg.require_oauth ≡ true) × IsAuthentic tokens cfg state r w))
  unfolding authorization_middleware
  authorization_middleware_iff cfg state r w = elim (Bool-cases (is_open r)) [
    | inl open_path ↦ rw open_path (
      (λ _. inl refl, λ _. refl),
      λ h e. ground (arith, e),
      (λ e. ground (arith, e), λ (e, _, _). ground (arith, e)),
    )
    | inr guarded ↦ elim (Bool-cases cfg.require_oauth) [
      | inr unprotected ↦
          rw (guarded, unprotected)
            (
              (λ _. inr refl, λ _. refl),
              λ h e. ground (arith, e),
              (λ e. ground (arith, e), λ (_, e, _). ground (arith, e)),
            )
      | inl protected ↦
          elim (Bool-cases (r.authorization == "" || not (has_prefix r.authorization "Bearer "))) [
            | inl no_bearer ↦
                rw (guarded, protected, no_bearer)
                  (
                    (
                      λ e. ground (arith, e),
                      elim [ inl e ↦ ground (arith, e) | inr e ↦ ground (arith, e) ],
                    ),
                    λ h e. ground (arith, e),
                    (
                      λ e. ground (arith, e),
                      λ (_, _, ok). absurd (not_bearer r.authorization ok.bearer no_bearer),
                    ),
                  )
            | inr bearer ↦
                let parsed = parse_jwt_claims tokens (trim_prefix r.authorization "Bearer ") in
                let (refuses, own, claims) = check_claims_iff cfg r.authorization state parsed w in
                rw (guarded, protected, bearer)
                  (
                    (
                      λ e. absurd (refuses e),
                      elim [ inl e ↦ ground (arith, e) | inr e ↦ ground (arith, e) ],
                    ),
                    own,
                    (
                      λ e.
                          let (c, p, valid, verified) = claims.0 e in
                          (
                            refl,
                            refl,
                            record {
                              bearer = ground (arith, bearer);
                              claims = c;
                              parsed = p;
                              valid = valid;
                              verified = verified;
                            },
                          ),
                      λ (_, _, ok). claims.1 (ok.claims, ok.parsed, ok.valid, ok.verified),
                    ),
                  )
          ]
    ]
  ]
