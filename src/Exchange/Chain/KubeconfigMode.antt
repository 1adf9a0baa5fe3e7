-- ===== src/Exchange/Chain/KubeconfigMode.antt =====
-- Which credentials reach a cluster in the mode `kubeconfig`, from the exchange of the token to the
-- derived client (pkg/kubernetes/token_exchange.go).
use kube_mcp_server.Base.{String, inl, inr, Option, none, some, ◌≡◌, refl, Option-cases}
use kube_mcp_server.Base.Text.{strip_prefix}
use kube_mcp_server.Config.{resolve_cluster_auth_mode}
use kube_mcp_server.Exchange.Chain.{
  Context, Client, own_client, Snapshot, Surroundings, bearer_token, Cached,
  sts_exchange_token_in_context, exchange_token_in_context,
}
use kube_mcp_server.Exchange.Chain.Provider.{
  ExchangingProvider, get_or_build_sts_config, get_derived_kubernetes,
}
use kube_mcp_server.Exchange.Chain.Derived.{derived_for-none, inner-inr, exchanged-inr}

no_bearer_in_empty : strip_prefix "Bearer " "" ≡ none
unfolding strip_prefix
no_bearer_in_empty = refl

module _ {R N K W : Type 0} (env : Surroundings R N K W) where
  -- No exchange for single targets: the provider has none.
  sts_exchange-kubeconfig :
      (provider : Option String) (token : String) (cached : Cached env) (ctx : Context) (w : W)
      → resolve_cluster_auth_mode env.base.settings ≡ "kubeconfig"
      → sts_exchange_token_in_context env provider token cached ctx w
        ≡ (inr (record ctx { authorization = some "" }), cached, w)
  unfolding sts_exchange_token_in_context
  sts_exchange-kubeconfig provider token cached ctx w mode = rw mode

  exchange_in-kubeconfig :
      (provider : Option String) (target : String) (cached : Cached env) (ctx ctx' : Context)
      (w : W)
      → env.per_target ≡ none
      → resolve_cluster_auth_mode env.base.settings ≡ "kubeconfig"
      → (exchange_token_in_context env provider target cached ctx w).0 ≡ inr ctx'
      → bearer_token ctx' ≡ none
  unfolding exchange_token_in_context strip_prefix
  exchange_in-kubeconfig provider target cached ctx ctx' w single mode h =
      elim (Option-cases (bearer_token ctx)) [
        | inl no_token ↦
            let same : ctx ≡ ctx' = cc (rw (single, no_token) at h) in rw (← same) no_token
        | inr (token, has) ↦
            let same : record ctx { authorization = some "" } ≡ ctx' = cc (
              rw (sts_exchange-kubeconfig provider token cached ctx w mode) at
                (rw (single, has) at h)) in
            rw (← same)
      ]

  -- Where the cluster authentication is by kubeconfig, no request is served with a token of its own:
  -- once a snapshot is there, and for a provider with no exchange for single targets, the client that
  -- a request is given, if it is given one, is the manager's own, whatever token the request bears.
  pub kubeconfig_mode_drops_tokens :
      (snapshot : Snapshot) (ctx : Context) (target : String) (p : ExchangingProvider N) (w : W)
      (client : Client)
      → env.per_target ≡ none
      → resolve_cluster_auth_mode env.base.settings ≡ "kubeconfig"
      → (get_derived_kubernetes env (some snapshot) ctx target p w).0 ≡ inr client
      → client ≡ own_client
  unfolding get_derived_kubernetes
  kubeconfig_mode_drops_tokens snapshot ctx target p w client single mode h =
      let shared = (get_or_build_sts_config env snapshot p).0 in
      let (ctx', exchanged, given) =
        exchanged-inr env target (get_or_build_sts_config env snapshot p).1
          (exchange_token_in_context env snapshot.oidc_provider target shared ctx w) shared client
          h in
      let (later, made) =
        inner-inr env ctx' target _ none client
          (exchange_in-kubeconfig snapshot.oidc_provider target shared ctx ctx' w single mode
            exchanged)
          given in
      (derived_for-none env ctx' later client made).0
