-- ===== src/Exchange/Chain/Follows.antt =====
-- What an exchange makes of the configuration that requests share (pkg/kubernetes/token_exchange.go):
-- one with the same settings.
use kube_mcp_server.Base.{
  String, ◌⊎◌, inl, inr, Option, none, some, ◌==◌, ◌!=◌, ◌≡◌, refl, sym, arith, Bool-cases, subst,
}
use kube_mcp_server.Config.{resolve_cluster_auth_mode}
use kube_mcp_server.Exchange.{TargetTokenExchangeConfig, ExchangeConfigError, validate_style}
use kube_mcp_server.Exchange.Forms.{TokenExchanger, get_token_exchanger, exchange}
use kube_mcp_server.Exchange.Chain.{
  Context, ChainError, Surroundings, TokenExchangeProvider, bearer_token, token_url_of,
  sts_is_enabled, sts_config, Cached, exchange_fresh, with_exchanger, strategy_based_token_exchange,
  token_behind, exchange_passthrough_token, pass_token, sts_exchange_token_in_context,
  exchange_for_target, exchange_subject, exchange_token_in_context,
}
use kube_mcp_server.Exchange.Chain.Kept.{SameSettings, exchange-SameSettings}

module _ {R N K W : Type 0} (env : Surroundings R N K W) where
  -- What an exchange makes of the shared configuration: one with the same settings.
  abbrev pub Follows : Cached env → Cached env → Type 0
  Follows before after =
      (c' : TargetTokenExchangeConfig N)
      → after ≡ some c'
      → (c : TargetTokenExchangeConfig N) × (before ≡ some c) × SameSettings c' c

  same-Follows : (cached : Cached env) → Follows cached cached
  same-Follows cached c e = (c, e, refl)

  none-Follows : (cached : Cached env) → Follows cached none
  none-Follows cached c e = ground (arith, e)

  exchange_fresh-none :
      (exchanger : TokenExchanger) (strategy user : String) (ctx : Context)
      (c : TargetTokenExchangeConfig N) (e : Option ExchangeConfigError) (w : W)
      → (exchange_fresh env exchanger strategy user ctx c e w).1 ≡ none
  exchange_fresh-none exchanger strategy user ctx c (some e) w = refl
  exchange_fresh-none exchanger strategy user ctx c none w = refl

  with_exchanger-Follows :
      (found : Option TokenExchanger) (strategy : String) (provider : Option String) (user : String)
      (cached : Cached env) (ctx : Context) (w : W)
      → Follows cached (with_exchanger env found strategy provider user cached ctx w).1
  with_exchanger-Follows none strategy provider user cached ctx w = same-Follows cached
  with_exchanger-Follows (some exchanger) strategy provider user (some c) ctx w = λ c' e.
      let same : (exchange env.services exchanger c user w).1 ≡ c' = cc e in
      (
        c,
        refl,
        subst (λ x. SameSettings x c) same (exchange-SameSettings env.services exchanger c user w),
      )
  with_exchanger-Follows (some exchanger) strategy provider user none ctx w =
      elim (Bool-cases (token_url_of provider == "")) [
        | inl missing ↦ rw missing (none-Follows none)
        | inr there ↦
            let fresh = sts_config {N = N} env.base (token_url_of provider) in
            rw there (
              subst (Follows none)
                (sym (
                  exchange_fresh-none exchanger strategy user ctx fresh
                    (validate_style {N = N} fresh) w))
                (none-Follows none))
      ]

  token_behind-Follows :
      (token : String) (cached : Cached env) (r : (ChainError ⊎ Context) × Cached env × W)
      → Follows cached r.1
      → Follows cached (token_behind env token r).1
  token_behind-Follows token cached (inl e, after, w) ok = ok
  token_behind-Follows token cached (inr ctx, after, w) ok = ok

  exchange_passthrough-Follows :
      (provider : Option String) (user : String) (cached : Cached env) (ctx : Context) (w : W)
      → Follows cached (exchange_passthrough_token env provider user cached ctx w).1
  unfolding exchange_passthrough_token strategy_based_token_exchange
  exchange_passthrough-Follows provider user cached ctx w =
      let strategy = env.base.settings.token_exchange_strategy in
      elim (Bool-cases (strategy != "")) [
        | inl configured ↦ rw configured (
            token_behind-Follows user cached
              (strategy_based_token_exchange env provider user strategy cached ctx w)
              (with_exchanger-Follows (get_token_exchanger strategy) strategy provider user cached
                ctx w))
        | inr none_set ↦ elim (Bool-cases (sts_is_enabled env.base provider)) [
          | inl enabled ↦
              rw (none_set, enabled) (token_behind-Follows user cached _ (same-Follows cached))
          | inr disabled ↦ rw (none_set, disabled) (same-Follows cached)
        ]
      ]

  pass_token-Follows :
      (ctx : Context) (cached : Cached env) (r : (ChainError ⊎ String) × Cached env × W)
      → Follows cached r.1
      → Follows cached (pass_token env ctx r).1
  pass_token-Follows ctx cached (inl e, after, w) ok = ok
  pass_token-Follows ctx cached (inr token, after, w) ok = ok

  sts_exchange-Follows :
      (provider : Option String) (user : String) (cached : Cached env) (ctx : Context) (w : W)
      → Follows cached (sts_exchange_token_in_context env provider user cached ctx w).1
  unfolding sts_exchange_token_in_context
  sts_exchange-Follows provider user cached ctx w =
      let mode = resolve_cluster_auth_mode env.base.settings in
      elim (Bool-cases (mode == "kubeconfig")) [
        | inl kubeconfig ↦ rw kubeconfig (same-Follows cached)
        | inr other ↦ elim (Bool-cases (mode == "passthrough")) [
          | inl passthrough ↦
              rw (other, passthrough)
                (pass_token-Follows ctx cached
                  (exchange_passthrough_token env provider user cached ctx w)
                  (exchange_passthrough-Follows provider user cached ctx w))
          | inr invalid ↦ rw (other, invalid) (same-Follows cached)
        ]
      ]

  exchange_for_target-Follows :
      (tep : TokenExchangeProvider N W) (config : Option (TargetTokenExchangeConfig N))
      (exchanger : Option TokenExchanger) (provider : Option String) (target user : String)
      (cached : Cached env) (ctx : Context) (w : W)
      → Follows cached
          (exchange_for_target env tep config exchanger provider target user cached ctx w).1
  exchange_for_target-Follows tep none exchanger provider target user cached ctx w =
      sts_exchange-Follows provider user cached ctx w
  exchange_for_target-Follows tep (some c) none provider target user cached ctx w =
      sts_exchange-Follows provider user cached ctx w
  exchange_for_target-Follows tep (some c) (some exchanger) provider target user cached ctx w =
      same-Follows cached

  exchange_subject-Follows :
      (per_target : Option (TokenExchangeProvider N W)) (user : Option String)
      (provider : Option String) (target : String) (cached : Cached env) (ctx : Context) (w : W)
      → Follows cached (exchange_subject env per_target user provider target cached ctx w).1
  exchange_subject-Follows per_target none provider target cached ctx w = same-Follows cached
  exchange_subject-Follows none (some user) provider target cached ctx w =
      sts_exchange-Follows provider user cached ctx w
  exchange_subject-Follows (some tep) (some user) provider target cached ctx w =
      exchange_for_target-Follows tep (tep.config_of target w)
        (get_token_exchanger (tep.strategy w)) provider target user cached ctx w

  pub exchange-Follows :
      (provider : Option String) (target : String) (cached : Cached env) (ctx : Context) (w : W)
      → Follows cached (exchange_token_in_context env provider target cached ctx w).1
  unfolding exchange_token_in_context
  exchange-Follows provider target cached ctx w =
      exchange_subject-Follows env.per_target (bearer_token ctx) provider target cached ctx w
