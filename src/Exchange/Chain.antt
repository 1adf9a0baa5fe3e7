-- ===== src/Exchange/Chain.antt =====
-- From the token of a request to the client for a cluster: pkg/kubernetes/token_exchange.go,
-- provider_token_exchange.go, sts.go (IsEnabled) and `Manager.Derived` of manager.go. A context holds
-- two values; what a target's manager is, the client libraries and the exchange for external accounts
-- are parameters.
pub mod Provider
pub mod Derived
pub mod Kept
pub mod Passed
pub mod Follows
pub mod Shared
pub mod KubeconfigMode
pub mod PassthroughMode
use Prim.Native.String as Str
use kube_mcp_server.Base.{
  ℕ, String, Bool, true, false, not, ◌&&◌, ◌||◌, ◌⊎◌, inl, inr, Option, none, some, List, ◌==◌,
  ◌!=◌, if◌then◌else◌, is_some, deref,
}
use kube_mcp_server.Base.Int.{pos}
use kube_mcp_server.Base.Text.{strip_prefix, has_prefix, trim_prefix}
use kube_mcp_server.Config.{StaticConfig, resolve_cluster_auth_mode}
use kube_mcp_server.Exchange.{
  TargetTokenExchangeConfig, ExchangeConfigError, validate_style, ExchangeError, OauthToken,
  Services,
}
use kube_mcp_server.Exchange.Forms.{TokenExchanger, get_token_exchanger, exchange}

-- The values that the middlewares and the exchange leave in a context.
pub record Context : Type 0 where
  pub authorization : Option String
  pub user_agent : Option String

-- What the exchange reads of the configuration.
pub record BaseConfig (R : Type 0) : Type 0 where
  pub settings : StaticConfig R
  pub sts_client_id : String
  pub sts_client_secret : String
  pub sts_scopes : List String
  pub sts_auth_style : String
  pub sts_client_cert_file : String
  pub sts_client_key_file : String

pub data ChainError : Type 0 where
  target_exchange_failed : String → ExchangeError → ChainError
  unknown_auth_mode : String → ChainError
  strategy_not_found : String → ChainError
  no_token_url : ChainError
  config_invalid : ExchangeConfigError → ChainError
  strategy_failed : String → ExchangeError → ChainError
  sts_failed : String → ChainError
  no_manager : String → ChainError
  token_required : ChainError
  client_failed : String → ChainError

-- A client of a cluster: the manager's own, with the credentials of the kubeconfig, or a derived one
-- with a bearer token and a user agent.
pub data Client : Type 0 where
  own_client : Client
  derived_client : String → String → Client

-- An optional interface of a provider, with what it shares with its callers.
pub record TokenExchangeProvider (N W : Type 0) : Type 0 where
  pub strategy : W → String
  pub config_of : String → W → Option (TargetTokenExchangeConfig N)
  pub update : String → TargetTokenExchangeConfig N → W → W

-- The OIDC provider of the snapshot, if it has one, gives a token URL, which may be empty.
pub record Snapshot : Type 0 where
  pub oidc_provider : Option String

-- `manager_for` is the inner provider's choice of a manager, `external_account` the exchange of
-- golang.org/x/oauth2 for the URL, the configuration and a token, `client_error` what may be wrong
-- with a derived client.
pub record Surroundings (R N K W : Type 0) : Type 0 where
  pub services : Services N K W
  pub base : BaseConfig R
  pub per_target : Option (TokenExchangeProvider N W)
  pub manager_for : String → W → (String ⊎ Unit {0}) × W
  pub external_account : String → BaseConfig R → String → W → (String ⊎ String) × W
  pub client_error : W → Option String

abbrev pub bearer : String → String
bearer token = Str.◌++◌ "Bearer " token

abbrev pub bearer_token : Context → Option String
bearer_token ctx = elim ctx.authorization [
  | none ↦ none
  | some header ↦ strip_prefix "Bearer " header
]

abbrev pub token_url_of : Option String → String
token_url_of provider = deref provider ""

-- SecurityTokenService.IsEnabled
unfoldable pub sts_is_enabled : {R : Type 0} → BaseConfig R → Option String → Bool
sts_is_enabled base provider =
    is_some provider && (base.sts_client_id != "" && base.settings.sts_audience != "")

-- The configuration of the exchange that the settings describe.
unfoldable pub sts_config : {R N : Type 0} → BaseConfig R → String → TargetTokenExchangeConfig N
sts_config base token_url = record {
  token_url = token_url;
  client_id = base.sts_client_id;
  client_secret = base.sts_client_secret;
  audience = base.settings.sts_audience;
  subject_token_type = "";
  subject_issuer = "";
  scopes = base.sts_scopes;
  ca_file = "";
  auth_style = if base.sts_auth_style == "" then "params" else base.sts_auth_style;
  client_cert_file = base.sts_client_cert_file;
  client_key_file = base.sts_client_key_file;
  assertion_lifetime = pos 0;
  client = none;
  cached_assertion = "";
  cached_assertion_expiry = pos 0;
}

module _ {R N K W : Type 0} (env : Surroundings R N K W) where
  abbrev pub Cached : Type 0
  Cached = Option (TargetTokenExchangeConfig N)

  -- An exchange's answer: the context with the new token, or the error.
  abbrev pub take_token :
      (ExchangeError → ChainError) → ExchangeError ⊎ OauthToken → Context → ChainError ⊎ Context
  take_token wrap (inl e) ctx = inl (wrap e)
  take_token wrap (inr token) ctx =
      inr (record ctx { authorization = some (bearer token.access_token) })

  abbrev pub run_exchange :
      TokenExchanger
      → (ExchangeError → ChainError)
      → String
      → Context
      → TargetTokenExchangeConfig N
      → W
      → (ChainError ⊎ Context) × TargetTokenExchangeConfig N × W
  run_exchange exchanger wrap token ctx c w =
      let (answer, c', w') = exchange env.services exchanger c token w in
      (take_token wrap answer ctx, c', w')

  -- With the shared configuration, or with a fresh one that is forgotten afterwards.
  abbrev pub exchange_fresh :
      TokenExchanger
      → String
      → String
      → Context
      → TargetTokenExchangeConfig N
      → Option ExchangeConfigError
      → W
      → (ChainError ⊎ Context) × Cached × W
  exchange_fresh exchanger strategy token ctx c (some e) w = (inl (config_invalid e), none, w)
  exchange_fresh exchanger strategy token ctx c none w =
      let (r, _, w') = run_exchange exchanger (strategy_failed strategy) token ctx c w in
      (r, none, w')

  abbrev pub with_exchanger :
      Option TokenExchanger
      → String
      → Option String
      → String
      → Cached
      → Context
      → W
      → (ChainError ⊎ Context) × Cached × W
  with_exchanger none strategy provider token cached ctx w =
      (inl (strategy_not_found strategy), cached, w)
  with_exchanger (some exchanger) strategy provider token (some c) ctx w =
      let (r, c', w') = run_exchange exchanger (strategy_failed strategy) token ctx c w in
      (r, some c', w')
  with_exchanger (some exchanger) strategy provider token none ctx w =
      if token_url_of provider == ""
      then (inl no_token_url, none, w)
      else let c = sts_config env.base (token_url_of provider) in
        exchange_fresh exchanger strategy token ctx c (validate_style c) w

  unfoldable pub strategy_based_token_exchange :
      Option String → String → String → Cached → Context → W → (ChainError ⊎ Context) × Cached × W
  unfolding get_token_exchanger exchange sts_config validate_style
  strategy_based_token_exchange provider token strategy cached ctx w =
      with_exchanger (get_token_exchanger strategy) strategy provider token cached ctx w

  -- doTokenExchange of this package: the token of the context behind the exchange, or the one before.
  abbrev pub token_behind :
      String → (ChainError ⊎ Context) × Cached × W → (ChainError ⊎ String) × Cached × W
  token_behind token (inl e, cached, w) = (inl e, cached, w)
  token_behind token (inr ctx, cached, w) = (inr (deref (bearer_token ctx) token), cached, w)

  abbrev pub take_sts : String ⊎ String → Context → ChainError ⊎ Context
  take_sts (inl e) ctx = inl (sts_failed e)
  take_sts (inr token) ctx = inr (record ctx { authorization = some (bearer token) })

  abbrev pub built_in_exchange :
      Option String → String → Cached → Context → W → (ChainError ⊎ Context) × Cached × W
  built_in_exchange provider token cached ctx w =
      let (answer, w') = env.external_account (token_url_of provider) env.base token w in
      (take_sts answer ctx, cached, w')

  unfoldable pub exchange_passthrough_token :
      Option String → String → Cached → Context → W → (ChainError ⊎ String) × Cached × W
  unfolding strategy_based_token_exchange sts_is_enabled strip_prefix
  exchange_passthrough_token provider token cached ctx w =
      if env.base.settings.token_exchange_strategy != ""
      then token_behind token (
          strategy_based_token_exchange provider token env.base.settings.token_exchange_strategy
            cached ctx w)
      else if sts_is_enabled env.base provider
      then token_behind token (built_in_exchange provider token cached ctx w)
      else (inr token, cached, w)

  abbrev pub pass_token :
      Context → (ChainError ⊎ String) × Cached × W → (ChainError ⊎ Context) × Cached × W
  pass_token ctx (inl e, cached, w) = (inl e, cached, w)
  pass_token ctx (inr token, cached, w) =
      (inr (record ctx { authorization = some (bearer token) }), cached, w)

  unfoldable pub sts_exchange_token_in_context :
      Option String → String → Cached → Context → W → (ChainError ⊎ Context) × Cached × W
  unfolding exchange_passthrough_token resolve_cluster_auth_mode
  sts_exchange_token_in_context provider token cached ctx w =
      let mode = resolve_cluster_auth_mode env.base.settings in
      if mode == "kubeconfig"
      then (inr (record ctx { authorization = some "" }), cached, w)
      else if mode == "passthrough"
      then pass_token ctx (exchange_passthrough_token provider token cached ctx w)
      else (inl (unknown_auth_mode mode), cached, w)

  -- The exchange of the target, if the provider has one and its strategy is known.
  abbrev pub exchange_for_target :
      TokenExchangeProvider N W
      → Option (TargetTokenExchangeConfig N)
      → Option TokenExchanger
      → Option String
      → String
      → String
      → Cached
      → Context
      → W
      → (ChainError ⊎ Context) × Cached × W
  exchange_for_target tep none exchanger provider target token cached ctx w =
      sts_exchange_token_in_context provider token cached ctx w
  exchange_for_target tep (some c) none provider target token cached ctx w =
      sts_exchange_token_in_context provider token cached ctx w
  exchange_for_target tep (some c) (some exchanger) provider target token cached ctx w =
      let (r, c', w') = run_exchange exchanger (target_exchange_failed target) token ctx c w in
      (r, cached, tep.update target c' w')

  abbrev pub exchange_subject :
      Option (TokenExchangeProvider N W)
      → Option String
      → Option String
      → String
      → Cached
      → Context
      → W
      → (ChainError ⊎ Context) × Cached × W
  exchange_subject tep none provider target cached ctx w = (inr ctx, cached, w)
  exchange_subject none (some token) provider target cached ctx w =
      sts_exchange_token_in_context provider token cached ctx w
  exchange_subject (some tep) (some token) provider target cached ctx w =
      exchange_for_target tep (tep.config_of target w) (get_token_exchanger (tep.strategy w))
        provider target token cached ctx w

  unfoldable pub exchange_token_in_context :
      Option String → String → Cached → Context → W → (ChainError ⊎ Context) × Cached × W
  unfolding sts_exchange_token_in_context exchange get_token_exchanger strip_prefix
  exchange_token_in_context provider target cached ctx w =
      exchange_subject env.per_target (bearer_token ctx) provider target cached ctx w
