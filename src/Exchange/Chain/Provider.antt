-- ===== src/Exchange/Chain/Provider.antt =====
-- The provider that exchanges tokens (pkg/kubernetes/provider_token_exchange.go) and the client that
-- a manager derives (`Manager.Derived` of pkg/kubernetes/manager.go).
use kube_mcp_server.Base.{
  String, ◌⊎◌, inl, inr, Option, none, some, ◌==◌, ◌!=◌, if◌then◌else◌, deref,
}
use kube_mcp_server.Base.Text.{strip_prefix}
use kube_mcp_server.Config.{resolve_cluster_auth_mode}
use kube_mcp_server.Exchange.{TargetTokenExchangeConfig, ExchangeConfigError, validate_style}
use kube_mcp_server.Exchange.Chain.{
  Context, ChainError, token_required, no_manager, client_failed, Client, own_client,
  derived_client, Snapshot, Surroundings, bearer_token, token_url_of, sts_config, Cached,
  exchange_token_in_context,
}

-- CustomUserAgent
abbrev pub custom_user_agent : String
custom_user_agent = "kubernetes-mcp-server/bearer-token-auth"

abbrev pub user_agent_of : Context → String
user_agent_of ctx = let ua = deref ctx.user_agent "" in if ua != "" then ua else custom_user_agent

-- The provider's fields that change: the configuration of the exchange, and its token URL.
pub record ExchangingProvider (N : Type 0) : Type 0 where
  pub sts_config : Option (TargetTokenExchangeConfig N)
  pub sts_token_url : String

module _ {R N K W : Type 0} (env : Surroundings R N K W) where
  abbrev pub check_client : Client → W → Option String → (ChainError ⊎ Client) × W
  check_client client w none = (inr client, w)
  check_client client w (some e) = (inl (client_failed e), w)

  abbrev pub derived_for : Option String → Context → W → (ChainError ⊎ Client) × W
  derived_for none ctx w =
      if resolve_cluster_auth_mode env.base.settings == "passthrough"
      then (inl token_required, w)
      else (inr own_client, w)
  derived_for (some token) ctx w =
      check_client (derived_client token (user_agent_of ctx)) w (env.client_error w)

  -- Manager.Derived
  unfoldable pub derived : Context → W → (ChainError ⊎ Client) × W
  unfolding resolve_cluster_auth_mode strip_prefix
  derived ctx w = derived_for (bearer_token ctx) ctx w

  abbrev pub derive_with : Context → (String ⊎ Unit {0}) × W → (ChainError ⊎ Client) × W
  derive_with ctx (inl e, w) = (inl (no_manager e), w)
  derive_with ctx (inr ok, w) = derived ctx w

  -- GetDerivedKubernetes of an inner provider: the manager of the target derives a client.
  unfoldable pub inner_derived_kubernetes : Context → String → W → (ChainError ⊎ Client) × W
  unfolding derived
  inner_derived_kubernetes ctx target w = derive_with ctx (env.manager_for target w)

  abbrev pub build_config :
      String → Option ExchangeConfigError → ExchangingProvider N → Cached env × ExchangingProvider N
  build_config token_url (some e) p = (none, p)
  build_config token_url none p =
      let c = sts_config env.base token_url in
      (some c, record { sts_config = some c; sts_token_url = token_url })

  abbrev pub reuse_config :
      String → Cached env → ExchangingProvider N → Cached env × ExchangingProvider N
  reuse_config token_url none p =
      build_config token_url (validate_style {N = N} (sts_config env.base token_url)) p
  reuse_config token_url (some c) p =
      if p.sts_token_url == token_url
      then (some c, p)
      else build_config token_url (validate_style {N = N} (sts_config env.base token_url)) p

  unfoldable pub get_or_build_sts_config :
      Snapshot → ExchangingProvider N → Cached env × ExchangingProvider N
  unfolding sts_config validate_style
  get_or_build_sts_config snapshot p =
      let token_url = token_url_of snapshot.oidc_provider in
      if env.base.settings.token_exchange_strategy == ""
      then (none, p)
      else if token_url == ""
      then (none, p)
      else reuse_config token_url p.sts_config p

  -- A shared configuration is the provider's own: what the exchange has changed in it stays.
  abbrev pub keep_config : Cached env → Cached env → ExchangingProvider N → ExchangingProvider N
  keep_config none after p = p
  keep_config (some before) after p = record p { sts_config = after }

  abbrev pub derive_exchanged :
      String
      → ExchangingProvider N
      → (ChainError ⊎ Context) × Cached env × W
      → Cached env
      → (ChainError ⊎ Client) × ExchangingProvider N × W
  derive_exchanged target p (inl e, after, w) before = (inl e, keep_config before after p, w)
  derive_exchanged target p (inr ctx, after, w) before =
      let (client, w') = inner_derived_kubernetes ctx target w in
      (client, keep_config before after p, w')

  -- GetDerivedKubernetes, with the snapshot of the moment.
  unfoldable pub get_derived_kubernetes :
      Option Snapshot
      → Context
      → String
      → ExchangingProvider N
      → W
      → (ChainError ⊎ Client) × ExchangingProvider N × W
  unfolding inner_derived_kubernetes get_or_build_sts_config exchange_token_in_context
  get_derived_kubernetes none ctx target p w =
      let (client, w') = inner_derived_kubernetes ctx target w in (client, p, w')
  get_derived_kubernetes (some snapshot) ctx target p w =
      let (shared, p') = get_or_build_sts_config snapshot p in
      derive_exchanged target p'
        (exchange_token_in_context env snapshot.oidc_provider target shared ctx w) shared
