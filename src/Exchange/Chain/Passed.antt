-- ===== src/Exchange/Chain/Passed.antt =====
-- Where a token that is passed to a cluster comes from (`exchangePassthroughToken` of
-- pkg/kubernetes/token_exchange.go and what it calls).
use kube_mcp_server.Base.{
  String, true, false, ◌⊎◌, inl, inr, Option, none, some, ◌==◌, ◌≡◌, ◌≢◌, refl, subst, arith,
  eq_iff, Bool-cases,
}
use kube_mcp_server.Base.Text.{strip_prefix, strip_prefix_self}
use kube_mcp_server.Exchange.{
  TargetTokenExchangeConfig, ExchangeConfigError, validate_style, ExchangeError, OauthToken,
}
use kube_mcp_server.Exchange.Forms.{TokenExchanger, get_token_exchanger, exchange}
use kube_mcp_server.Exchange.Chain.{
  Context, ChainError, Surroundings, bearer, bearer_token, token_url_of, sts_is_enabled, sts_config,
  Cached, take_token, exchange_fresh, with_exchanger, strategy_based_token_exchange, token_behind,
  take_sts, exchange_passthrough_token, strategy_failed,
}
use kube_mcp_server.Exchange.Chain.Kept.{SameSettings}

module _ {R N K W : Type 0} (env : Surroundings R N K W) where
  -- The configuration that is shared, if any, has the settings of the server for the provider's URL.
  abbrev pub HasSettings : Option String → Cached env → Type 0
  HasSettings provider cached =
      (c : TargetTokenExchangeConfig N)
      → cached ≡ some c
      → SameSettings c (sts_config env.base (token_url_of provider))

  -- Where the new token of an exchange comes from: the exchanger that is registered for the configured
  -- strategy, with the settings of the server and the token URL of the provider.
  pub record IsExchanged (provider : Option String) (user token : String) : Type 0 where
    pub exchanger : TokenExchanger
    pub config : TargetTokenExchangeConfig N
    pub registered : get_token_exchanger env.base.settings.token_exchange_strategy ≡ some exchanger
    pub settings : SameSettings config (sts_config env.base (token_url_of provider))
    pub asked : W
    pub answer : OauthToken
    pub answered : (exchange env.services exchanger config user asked).0 ≡ inr answer
    pub taken : token ≡ answer.access_token

  -- What a token that is passed to the cluster is, for the user's token.
  abbrev pub Passed : Option String → String → String → Type 0
  Passed provider user token =
      ((env.base.settings.token_exchange_strategy ≢ "") × IsExchanged provider user token)
      ⊎ ((sts_is_enabled env.base provider ≡ true)
          × (asked : W) × ((env.external_account (token_url_of provider) env.base user asked).0
              ≡ inr token))
      ⊎ ((env.base.settings.token_exchange_strategy ≡ "")
          × (sts_is_enabled env.base provider ≡ false)
          × (token ≡ user))

  -- A context with a new token, and the values of the old one otherwise.
  abbrev pub Bears : String → Context → Context → Type 0
  Bears token ctx ctx' = (bearer_token ctx' ≡ some token) × (ctx'.user_agent ≡ ctx.user_agent)

  abbrev Exchanged : Option String → String → Context → ChainError ⊎ Context → Type 0
  Exchanged provider user ctx r =
      (ctx' : Context)
      → r ≡ inr ctx'
      → (token : String) × IsExchanged provider user token × Bears token ctx ctx'

  take_token-Exchanged :
      (provider : Option String) (exchanger : TokenExchanger) (wrap : ExchangeError → ChainError)
      (user : String) (ctx : Context) (c : TargetTokenExchangeConfig N) (w : W)
      (answer : ExchangeError ⊎ OauthToken)
      → get_token_exchanger env.base.settings.token_exchange_strategy ≡ some exchanger
      → SameSettings c (sts_config env.base (token_url_of provider))
      → (exchange env.services exchanger c user w).0 ≡ answer
      → Exchanged provider user ctx (take_token env wrap answer ctx)
  take_token-Exchanged provider exchanger wrap user ctx c w (inl e) known settings given ctx' h =
      ground (arith, h)
  take_token-Exchanged provider exchanger wrap user ctx c w (inr answer) known settings given ctx'
        h =
      let same : record ctx { authorization = some (bearer answer.access_token) } ≡ ctx' = cc h in
      (
        answer.access_token,
        record {
          exchanger = exchanger;
          config = c;
          registered = known;
          settings = settings;
          asked = w;
          answer = answer;
          answered = given;
          taken = refl;
        },
        (rw (← same) (strip_prefix_self "Bearer " answer.access_token), rw (← same)),
      )

  exchange_fresh-Exchanged :
      (provider : Option String) (exchanger : TokenExchanger) (strategy user : String)
      (ctx : Context) (c : TargetTokenExchangeConfig N) (e : Option ExchangeConfigError) (w : W)
      → get_token_exchanger env.base.settings.token_exchange_strategy ≡ some exchanger
      → SameSettings c (sts_config env.base (token_url_of provider))
      → Exchanged provider user ctx (exchange_fresh env exchanger strategy user ctx c e w).0
  exchange_fresh-Exchanged provider exchanger strategy user ctx c (some e) w known settings ctx' h =
      ground (arith, h)
  exchange_fresh-Exchanged provider exchanger strategy user ctx c none w known settings ctx' h =
      take_token-Exchanged provider exchanger (strategy_failed strategy) user ctx c w
        (exchange env.services exchanger c user w).0 known settings refl ctx' h

  with_exchanger-Exchanged :
      (found : Option TokenExchanger) (strategy : String) (provider : Option String) (user : String)
      (cached : Cached env) (ctx : Context) (w : W)
      → get_token_exchanger env.base.settings.token_exchange_strategy ≡ found
      → HasSettings provider cached
      → Exchanged provider user ctx (with_exchanger env found strategy provider user cached ctx w).0
  with_exchanger-Exchanged none strategy provider user cached ctx w known kept ctx' h =
      ground (arith, h)
  with_exchanger-Exchanged (some exchanger) strategy provider user (some c) ctx w known kept ctx'
        h =
      take_token-Exchanged provider exchanger (strategy_failed strategy) user ctx c w
        (exchange env.services exchanger c user w).0 known (kept c refl) refl ctx' h
  with_exchanger-Exchanged (some exchanger) strategy provider user none ctx w known kept ctx' h =
      elim (Bool-cases (token_url_of provider == "")) [
        | inl missing ↦ ground (arith, rw missing at h)
        | inr found ↦
            exchange_fresh-Exchanged provider exchanger strategy user ctx
              (sts_config env.base (token_url_of provider))
              (validate_style {N = N} (sts_config env.base (token_url_of provider))) w known refl
              ctx' (rw found at h)
      ]

  strategy_based-Exchanged :
      (provider : Option String) (user : String) (cached : Cached env) (ctx : Context) (w : W)
      → HasSettings provider cached
      → Exchanged provider user ctx
          (strategy_based_token_exchange env provider user env.base.settings.token_exchange_strategy
            cached ctx w).0
  unfolding strategy_based_token_exchange
  strategy_based-Exchanged provider user cached ctx w kept =
      let strategy = env.base.settings.token_exchange_strategy in
      with_exchanger-Exchanged (get_token_exchanger strategy) strategy provider user cached ctx w
        refl kept

  token_behind-Exchanged :
      (provider : Option String) (user token : String) (ctx : Context)
      (r : (ChainError ⊎ Context) × Cached env × W)
      → Exchanged provider user ctx r.0
      → (token_behind env user r).0 ≡ inr token
      → IsExchanged provider user token
  token_behind-Exchanged provider user token ctx (inl e, cached, w) made h = ground (arith, h)
  token_behind-Exchanged provider user token ctx (inr ctx', cached, w) made h =
      let (new, exchanged, bears) = made ctx' refl in
      let same : new ≡ token = cc (rw bears.0 at h) in
      subst (IsExchanged provider user) same exchanged

  built_in-Passed :
      (provider : Option String) (user token : String) (cached : Cached env) (ctx : Context)
      (w w' : W) (answer : String ⊎ String)
      → (token_behind env user (take_sts env answer ctx, cached, w')).0 ≡ inr token
      → answer ≡ inr token
  unfolding strip_prefix
  built_in-Passed provider user token cached ctx w w' (inl e) h = ground (arith, h)
  built_in-Passed provider user token cached ctx w w' (inr new) h =
      cc (rw (strip_prefix_self "Bearer " new) at h)

  pub exchange_passthrough-Passed :
      (provider : Option String) (user token : String) (cached : Cached env) (ctx : Context) (w : W)
      → HasSettings provider cached
      → (exchange_passthrough_token env provider user cached ctx w).0 ≡ inr token
      → Passed provider user token
  unfolding exchange_passthrough_token
  exchange_passthrough-Passed provider user token cached ctx w kept h =
      elim (Bool-cases (env.base.settings.token_exchange_strategy == "")) [
        | inr strategy ↦ inl (
          λ e. ground (arith, eq_iff env.base.settings.token_exchange_strategy "", strategy, e),
          token_behind-Exchanged provider user token ctx
              (strategy_based_token_exchange env provider user
                env.base.settings.token_exchange_strategy cached ctx w)
              (strategy_based-Exchanged provider user cached ctx w kept) (rw strategy at h),
        )
        | inl no_strategy ↦ elim (Bool-cases (sts_is_enabled env.base provider)) [
          | inl enabled ↦ inr (
              inl (
                enabled,
                w,
                built_in-Passed provider user token cached ctx w _
                    (env.external_account (token_url_of provider) env.base user w).0
                    (rw (no_strategy, enabled) at h),
              ))
          | inr disabled ↦ inr (
              inr (
                ground (arith, eq_iff env.base.settings.token_exchange_strategy "", no_strategy),
                disabled,
                cc (rw (no_strategy, disabled) at h),
              ))
        ]
      ]
