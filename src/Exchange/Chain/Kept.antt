-- ===== src/Exchange/Chain/Kept.antt =====
-- What an exchange changes in the configuration it is given: the client and the assertion that it
-- caches, and no setting (pkg/tokenexchange, pkg/kubernetes/token_exchange.go and
-- provider_token_exchange.go).
use kube_mcp_server.Base.{
  ◌+◌, String, ◌⊎◌, inl, inr, none, some, [], ◌==◌, ◌!=◌, ◌&&◌, ◌≡◌, refl, sym, ap, ◌∙◌, Bool-cases,
  subst,
}
use kube_mcp_server.Base.Int.{ℤ, pos, ltz}
use kube_mcp_server.Base.Assoc.{Assoc}
use kube_mcp_server.Exchange.{
  TargetTokenExchangeConfig, ExchangeError, Services, build_client_assertion, store_assertion,
  get_or_build_assertion, assertion_refresh_margin, with_assertion, inject_client_auth, http_client,
  keep_client,
}
use kube_mcp_server.Exchange.Forms.{TokenExchanger, exchange, form_of, post_form, with_client}

-- The two configurations have the same settings.
abbrev pub SameSettings :
    {N : Type 0} → TargetTokenExchangeConfig N → TargetTokenExchangeConfig N → Type 0
SameSettings c d =
    record c {
      client = d.client;
      cached_assertion = d.cached_assertion;
      cached_assertion_expiry = d.cached_assertion_expiry;
    }
    ≡ d

pub SameSettings-trans :
    {N : Type 0} (a b c : TargetTokenExchangeConfig N)
    → SameSettings a b
    → SameSettings b c
    → SameSettings a c
SameSettings-trans {N} a b c h k =
    ap {A = TargetTokenExchangeConfig N}
      (λ x. record x {
        client = c.client;
        cached_assertion = c.cached_assertion;
        cached_assertion_expiry = c.cached_assertion_expiry;
      })
      h
    ∙ k

module _ {N K W : Type 0} (services : Services N K W) where
  store_assertion-SameSettings :
      (c : TargetTokenExchangeConfig N) (built : (String ⊎ (String × ℤ)) × W)
      → SameSettings (store_assertion services c built).1 c
  store_assertion-SameSettings c (inl e, w) = refl
  store_assertion-SameSettings c (inr (assertion, expiry), w) = refl

  get_or_build-SameSettings :
      (c : TargetTokenExchangeConfig N) (w : W)
      → SameSettings (get_or_build_assertion services c w).1 c
  unfolding get_or_build_assertion
  get_or_build-SameSettings c w =
      elim (Bool-cases (
        c.cached_assertion != ""
        && ltz (pos (services.now w + assertion_refresh_margin)) c.cached_assertion_expiry)) [
          | inl fresh ↦ rw fresh refl
          | inr stale ↦
              rw stale (store_assertion-SameSettings c (build_client_assertion services c w))
        ]

  with_assertion-config :
      (form headers : Assoc String) (r : (String ⊎ String) × TargetTokenExchangeConfig N × W)
      → (with_assertion services form headers r).1 ≡ r.1
  with_assertion-config form headers (inl e, c, w) = refl
  with_assertion-config form headers (inr assertion, c, w) = refl

  inject-SameSettings :
      (c : TargetTokenExchangeConfig N) (form headers : Assoc String) (w : W)
      → SameSettings (inject_client_auth services c form headers w).1 c
  unfolding inject_client_auth
  inject-SameSettings c form headers w = elim (Bool-cases (c.client_id == "")) [
    | inl unnamed ↦ rw unnamed refl
    | inr named ↦ elim (Bool-cases (c.auth_style == "header")) [
      | inl header ↦ rw (named, header) refl
      | inr other ↦ elim (Bool-cases (c.auth_style == "assertion")) [
        | inl asserts ↦
            rw (named, other, asserts)
              (subst (λ r. SameSettings r c)
                (sym (with_assertion-config form headers (get_or_build_assertion services c w)))
                (get_or_build-SameSettings c w))
        | inr params ↦ rw (named, other, params) refl
      ]
    ]
  ]

  post_form-config :
      (client : N)
      (r : (ExchangeError ⊎ (Assoc String × Assoc String)) × TargetTokenExchangeConfig N × W)
      → (post_form services client r).1 ≡ r.1
  post_form-config client (inl e, c, w) = refl
  post_form-config client (inr (form, headers), c, w) = refl

  with_client-SameSettings :
      (exchanger : TokenExchanger) (token : String) (w : W)
      (r : (ExchangeError ⊎ N) × TargetTokenExchangeConfig N)
      → SameSettings (with_client services exchanger token w r).1 r.1
  with_client-SameSettings exchanger token w (inl e, c) = refl
  with_client-SameSettings exchanger token w (inr client, c) =
      subst (λ x. SameSettings x c)
        (sym (
          post_form-config client (inject_client_auth services c (form_of exchanger c token) [] w)))
        (inject-SameSettings c (form_of exchanger c token) [] w)

  http_client-SameSettings :
      (c : TargetTokenExchangeConfig N) → SameSettings (http_client services c).1 c
  unfolding http_client
  http_client-SameSettings c =
      elim c.client
        as (λ o.
          SameSettings
            (elim o as (λ _. (ExchangeError ⊎ N) × TargetTokenExchangeConfig N) [
              | some client ↦ (inr client, c)
              | none ↦ keep_client services c (services.new_client c.ca_file)
            ]).1
            c) [ some client ↦ refl | none ↦ made (services.new_client c.ca_file) ]
    where
      made : (r : String ⊎ N) → SameSettings (keep_client services c r).1 c
      made (inl e) = refl
      made (inr client) = refl

  pub exchange-SameSettings :
      (exchanger : TokenExchanger) (c : TargetTokenExchangeConfig N) (token : String) (w : W)
      → SameSettings (exchange services exchanger c token w).1 c
  unfolding exchange
  exchange-SameSettings exchanger c token w =
      SameSettings-trans (exchange services exchanger c token w).1 (http_client services c).1 c
        (with_client-SameSettings exchanger token w (http_client services c))
        (http_client-SameSettings c)
