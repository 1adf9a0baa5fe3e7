-- ===== src/Exchange/Chain/Shared.antt =====
-- The configuration that requests share for the exchange: it has the settings of the server for the
-- token URL that is kept beside it (getOrBuildStsConfig and GetDerivedKubernetes of
-- pkg/kubernetes/provider_token_exchange.go).
use kube_mcp_server.Base.{
  String, ◌⊎◌, inl, inr, Option, none, some, ◌==◌, ◌≡◌, refl, sym, ◌∙◌, arith, eq_iff, Bool-cases,
  subst,
}
use kube_mcp_server.Exchange.{TargetTokenExchangeConfig, ExchangeConfigError, validate_style}
use kube_mcp_server.Exchange.Chain.{
  Context, ChainError, Snapshot, Surroundings, token_url_of, sts_config, Cached,
  exchange_token_in_context,
}
use kube_mcp_server.Exchange.Chain.Kept.{SameSettings, SameSettings-trans}
use kube_mcp_server.Exchange.Chain.Provider.{
  ExchangingProvider, build_config, reuse_config, get_or_build_sts_config, keep_config,
  derive_exchanged, get_derived_kubernetes,
}
use kube_mcp_server.Exchange.Chain.Follows.{Follows, exchange-Follows}

module _ {R N K W : Type 0} (env : Surroundings R N K W) where
  -- The provider's configuration has the settings of the server for the token URL beside it.
  abbrev pub IsKept : ExchangingProvider N → Type 0
  IsKept p =
      (c : TargetTokenExchangeConfig N)
      → p.sts_config ≡ some c
      → SameSettings c (sts_config env.base p.sts_token_url)

  -- What getOrBuildStsConfig gives, for a token URL.
  abbrev Shares : String → Cached env × ExchangingProvider N → Type 0
  Shares url (shared, p) =
      IsKept p
      × ((c : TargetTokenExchangeConfig N)
          → shared ≡ some c
          → (p.sts_token_url ≡ url) × SameSettings c (sts_config env.base url))

  build_config-Shares :
      (url : String) (e : Option ExchangeConfigError) (p : ExchangingProvider N)
      → IsKept p
      → Shares url (build_config env url e p)
  build_config-Shares url (some e) p kept = (kept, λ c h. ground (arith, h))
  build_config-Shares url none p kept = (λ c h. settings c h, λ c h. (refl, settings c h))
    where
      settings :
          (c : TargetTokenExchangeConfig N)
          → ◌≡◌ {A = Cached env} (some (sts_config env.base url)) (some c)
          → SameSettings c (sts_config env.base url)
      settings c h =
          let same : sts_config env.base url ≡ c = cc h in
          subst (λ x. SameSettings x (sts_config env.base url)) same refl

  reuse_config-Shares :
      (url : String) (config : Cached env) (p : ExchangingProvider N)
      → p.sts_config ≡ config
      → IsKept p
      → Shares url (reuse_config env url config p)
  reuse_config-Shares url none p e kept =
      build_config-Shares url (validate_style {N = N} (sts_config env.base url)) p kept
  reuse_config-Shares url (some c) p e kept = elim (Bool-cases (p.sts_token_url == url)) [
    | inr other ↦
        rw other (build_config-Shares url (validate_style {N = N} (sts_config env.base url)) p kept)
    | inl same ↦
        let url_same : p.sts_token_url ≡ url = (eq_iff p.sts_token_url url).0 same in
        rw same (
          kept,
          λ d h.
              let settings = kept d (e ∙ h) in
              (url_same, subst (λ u. SameSettings d (sts_config env.base u)) url_same settings),
        )
  ]

  pub get_or_build-Shares :
      (snapshot : Snapshot) (p : ExchangingProvider N)
      → IsKept p
      → Shares (token_url_of snapshot.oidc_provider) (get_or_build_sts_config env snapshot p)
  unfolding get_or_build_sts_config
  get_or_build-Shares snapshot p kept =
      elim (Bool-cases (env.base.settings.token_exchange_strategy == "")) [
        | inl unset ↦ rw unset (kept, λ c h. ground (arith, h))
        | inr set ↦ elim (Bool-cases (token_url_of snapshot.oidc_provider == "")) [
          | inl no_url ↦ rw (set, no_url) (kept, λ c h. ground (arith, h))
          | inr url ↦
              rw (set, url)
                (reuse_config-Shares (token_url_of snapshot.oidc_provider) p.sts_config p refl kept)
        ]
      ]

  keep_config-IsKept :
      (url : String) (before after : Cached env) (p : ExchangingProvider N)
      → Shares url (before, p)
      → Follows env before after
      → IsKept (keep_config env before after p)
  keep_config-IsKept url none after p shares follows = shares.0
  keep_config-IsKept url (some d) after p shares follows = λ c' e.
      let (c, same, changed) = follows c' e in
      let (at_url, settings) = shares.1 c same in
      SameSettings-trans c' c (sts_config env.base p.sts_token_url) changed
        (subst (λ u. SameSettings c (sts_config env.base u)) (sym at_url) settings)

  derive_exchanged-provider :
      (target : String) (p : ExchangingProvider N) (r : (ChainError ⊎ Context) × Cached env × W)
      (before : Cached env)
      → (derive_exchanged env target p r before).1 ≡ keep_config env before r.1 p
  derive_exchanged-provider target p (inl e, after, w) before = refl
  derive_exchanged-provider target p (inr ctx, after, w) before = refl

  -- Every call leaves a provider's configuration with the settings of the server.
  pub get_derived-IsKept :
      (snapshot : Option Snapshot) (ctx : Context) (target : String) (p : ExchangingProvider N)
      (w : W)
      → IsKept p
      → IsKept (get_derived_kubernetes env snapshot ctx target p w).1
  unfolding get_derived_kubernetes
  get_derived-IsKept none ctx target p w kept = kept
  get_derived-IsKept (some snapshot) ctx target p w kept =
      let shared = (get_or_build_sts_config env snapshot p).0 in
      let p' = (get_or_build_sts_config env snapshot p).1 in
      let exchanged = exchange_token_in_context env snapshot.oidc_provider target shared ctx w in
      subst IsKept (sym (derive_exchanged-provider target p' exchanged shared)) (
        keep_config-IsKept (token_url_of snapshot.oidc_provider) shared exchanged.1 p'
          (get_or_build-Shares snapshot p kept)
          (exchange-Follows env snapshot.oidc_provider target shared ctx w))
