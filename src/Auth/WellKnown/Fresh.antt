-- ===== src/Auth/WellKnown/Fresh.antt =====
-- How old the cached OIDC configuration is and where it comes from (pkg/http/wellknown.go).
use Prim.Native.String as Str
use kube_mcp_server.Base.{
  ℕ, ◌-◌, String, true, false, ◌⊎◌, inl, inr, Option, none, some, List, ◌≡◌, refl, subst, arith,
  eq_iff, Bool-cases, ◌<◌,
}
use kube_mcp_server.Base.Assoc.{Assoc}
use kube_mcp_server.Auth.WellKnown.{
  Web, FetchError, Cache, read_upstream, authorization_url_of, fetch_anew, keep_fetched, is_current,
  fetch_open_id_configuration, oidc_config_cache_ttl, open_id_configuration_endpoint,
}

module _ {V P W : Type 0} (web : Web V P W) where
  -- At some moment the authorization server at the URL has given the configuration, which was stored
  -- at the time given.
  pub record IsFetched (url : String) (config : Assoc V) (time : ℕ) : Type 0 where
    pub before : W
    pub headers : List (String × String)
    pub given :
        read_upstream (web.ask "GET" (Str.◌++◌ url open_id_configuration_endpoint) before).0
        ≡ inr (some config, headers)
    pub stored :
        time ≡ web.now (web.ask "GET" (Str.◌++◌ url open_id_configuration_endpoint) before).1

  abbrev pub IsHonest : Cache web → Type 0
  IsHonest none = Unit
  IsHonest (some c) = IsFetched c.url c.config c.time

  -- A configuration that is given for a URL has been fetched from there, less than the TTL ago.
  abbrev pub IsRecent : String → (FetchError ⊎ Option (Assoc V)) × Cache web × W → Type 0
  IsRecent url (inl e, cache, w) = Unit
  IsRecent url (inr none, cache, w) = Unit
  IsRecent url (inr (some m), cache, w) =
      (time : ℕ) × IsFetched url m time × (web.now w - time < oidc_config_cache_ttl)

  abbrev pub CacheHonest : (FetchError ⊎ Option (Assoc V)) × Cache web × W → Type 0
  CacheHonest (r, cache, w) = IsHonest cache

  no_age : (n : ℕ) → n - n < oidc_config_cache_ttl
  no_age n = omega arith

  keep_fetched-IsRecent :
      (url : String) (cache : Cache web)
      (fetched : (FetchError ⊎ (Option (Assoc V) × List (String × String))) × W)
      → ((m : Assoc V) (headers : List (String × String))
          → fetched.0 ≡ inr (some m, headers)
          → IsFetched url m (web.now fetched.1))
      → IsHonest cache
      → CacheHonest (keep_fetched web url cache fetched)
        × IsRecent url (keep_fetched web url cache fetched)
  keep_fetched-IsRecent url cache (inl e, w) given honest = (honest, tt)
  keep_fetched-IsRecent url cache (inr (none, headers), w) given honest = (honest, tt)
  keep_fetched-IsRecent url cache (inr (some m, headers), w) given honest =
      (given m headers refl, (web.now w, given m headers refl, no_age (web.now w)))

  fetch_anew-IsRecent :
      (url : String) (cache : Cache web) (w : W)
      → IsHonest cache
      → CacheHonest (fetch_anew web url cache w) × IsRecent url (fetch_anew web url cache w)
  fetch_anew-IsRecent url cache w honest =
      let answer = web.ask "GET" (Str.◌++◌ url open_id_configuration_endpoint) w in
      keep_fetched-IsRecent url cache (read_upstream answer.0, answer.1)
        (λ m headers h. record { before = w; headers = headers; given = h; stored = refl }) honest

  -- Asked for the OIDC configuration with an honest cache, the server leaves an honest cache, whether
  -- the fetch succeeds or not, and a configuration that it gives has been fetched from the URL that the
  -- OAuth state named when it was asked, less than 5 minutes ago.
  pub fetch_open_id_configuration-IsRecent :
      (cache : Cache web) (w : W)
      → IsHonest cache
      → CacheHonest (fetch_open_id_configuration web cache w)
        × IsRecent (authorization_url_of web w) (fetch_open_id_configuration web cache w)
  unfolding fetch_open_id_configuration
  fetch_open_id_configuration-IsRecent none w honest =
      fetch_anew-IsRecent (authorization_url_of web w) none w honest
  fetch_open_id_configuration-IsRecent (some c) w honest =
      by_age (Bool-cases (is_current web (authorization_url_of web w) w c))
    where
      by_age :
          (is_current web (authorization_url_of web w) w c ≡ true)
            ⊎ (is_current web (authorization_url_of web w) w c ≡ false)
          → CacheHonest (fetch_open_id_configuration web (some c) w)
            × IsRecent (authorization_url_of web w) (fetch_open_id_configuration web (some c) w)
      by_age (inl e) =
          let same : c.url ≡ authorization_url_of web w =
            ground (arith, e, eq_iff c.url (authorization_url_of web w)) in
          let recent : web.now w - c.time < oidc_config_cache_ttl = ground (arith, e) in
          rw e (honest, (c.time, subst (λ url. IsFetched url c.config c.time) same honest, recent))
      by_age (inr e) = rw e (fetch_anew-IsRecent (authorization_url_of web w) (some c) w honest)
