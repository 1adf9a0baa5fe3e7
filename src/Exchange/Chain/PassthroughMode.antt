-- ===== src/Exchange/Chain/PassthroughMode.antt =====
-- Which credentials reach a cluster in the mode `passthrough`, from the exchange of the token to the
-- derived client (pkg/kubernetes/token_exchange.go).
use kube_mcp_server.Base.{
  String, ◌⊎◌, inl, inr, Option, none, some, ◌!=◌, ◌≡◌, refl, ap, ◌∙◌, arith, if◌then◌else◌, deref,
  Option-cases,
}
use kube_mcp_server.Base.Text.{strip_prefix, strip_prefix_self}
use kube_mcp_server.Config.{resolve_cluster_auth_mode}
use kube_mcp_server.Exchange.Chain.{
  Context, ChainError, Client, derived_client, Snapshot, Surroundings, bearer, bearer_token, Cached,
  exchange_passthrough_token, pass_token, sts_exchange_token_in_context, exchange_token_in_context,
}
use kube_mcp_server.Exchange.Chain.Provider.{
  ExchangingProvider, custom_user_agent, user_agent_of, get_or_build_sts_config,
  get_derived_kubernetes,
}
use kube_mcp_server.Exchange.Chain.Derived.{
  derived_for-none, check_client-inr, inner-inr, exchanged-inr,
}
use kube_mcp_server.Exchange.Chain.Passed.{HasSettings, Passed, Bears, exchange_passthrough-Passed}
use kube_mcp_server.Exchange.Chain.Shared.{IsKept, get_or_build-Shares, get_derived-IsKept}

no_bearer_in_empty : strip_prefix "Bearer " "" ≡ none
unfolding strip_prefix
no_bearer_in_empty = refl

module _ {R N K W : Type 0} (env : Surroundings R N K W) where
  Passed-inr :
      (provider : Option String) (user : String) (ctx ctx' : Context)
      (r : (ChainError ⊎ String) × Cached env × W)
      → ((token : String) → r.0 ≡ inr token → Passed env provider user token)
      → (pass_token env ctx r).0 ≡ inr ctx'
      → (token : String) × Passed env provider user token × Bears env token ctx ctx'
  Passed-inr provider user ctx ctx' (inl e, cached, w) passed h = ground (arith, h)
  Passed-inr provider user ctx ctx' (inr token, cached, w) passed h =
      let same : record ctx { authorization = some (bearer token) } ≡ ctx' = cc h in
      (token, passed token refl, (rw (← same) (strip_prefix_self "Bearer " token), rw (← same)))

  sts_exchange-Passed :
      (provider : Option String) (user : String) (cached : Cached env) (ctx ctx' : Context) (w : W)
      → resolve_cluster_auth_mode env.base.settings ≡ "passthrough"
      → HasSettings env provider cached
      → (sts_exchange_token_in_context env provider user cached ctx w).0 ≡ inr ctx'
      → (token : String) × Passed env provider user token × Bears env token ctx ctx'
  unfolding sts_exchange_token_in_context
  sts_exchange-Passed provider user cached ctx ctx' w mode kept h =
      Passed-inr provider user ctx ctx' (exchange_passthrough_token env provider user cached ctx w)
        (λ token made. exchange_passthrough-Passed env provider user token cached ctx w kept made)
        (rw mode at h)

  exchange_in-passthrough :
      (provider : Option String) (target : String) (cached : Cached env) (ctx ctx' : Context)
      (w : W)
      → env.per_target ≡ none
      → resolve_cluster_auth_mode env.base.settings ≡ "passthrough"
      → HasSettings env provider cached
      → (exchange_token_in_context env provider target cached ctx w).0 ≡ inr ctx'
      → (bearer_token ctx' ≡ none)
        ⊎ ((user token : String) × (bearer_token ctx ≡ some user)
            × Passed env provider user token
            × Bears env token ctx ctx')
  unfolding exchange_token_in_context
  exchange_in-passthrough provider target cached ctx ctx' w single mode kept h =
      elim (Option-cases (bearer_token ctx)) [
        | inl no_token ↦
            let same : ctx ≡ ctx' = cc (rw (single, no_token) at h) in inl (rw (← same) no_token)
        | inr (user, has) ↦
            let (token, passed, bears) =
              sts_exchange-Passed provider user cached ctx ctx' w mode kept
                (rw (single, has) at h) in
            inr (user, token, has, passed, bears)
      ]

  -- Where the cluster authentication is by passthrough, nobody is served with the credentials of the
  -- kubeconfig, and no exchange fails open: once a snapshot is there, and for a provider with no
  -- exchange for single targets whose shared configuration, if it has one, has the settings of the
  -- server for the token URL beside it, a client that a request is given bears a token, the request bore
  -- a user's token, and the client's token is the answer for the user's token of the exchanger that is
  -- registered for the configured strategy, asked with the settings of the server and the token URL of
  -- the snapshot, or of the built-in exchange at that URL; only where neither is configured is it the
  -- user's. The shared configuration has the settings of the server afterwards as well.
  pub passthrough_mode_passes :
      (snapshot : Snapshot) (ctx : Context) (target : String) (p : ExchangingProvider N) (w : W)
      (client : Client)
      → env.per_target ≡ none
      → resolve_cluster_auth_mode env.base.settings ≡ "passthrough"
      → IsKept env p
      → (get_derived_kubernetes env (some snapshot) ctx target p w).0 ≡ inr client
      → ((user token : String) × (bearer_token ctx ≡ some user)
          × Passed env snapshot.oidc_provider user token
          × (client ≡ derived_client token (user_agent_of ctx)))
        × IsKept env (get_derived_kubernetes env (some snapshot) ctx target p w).1
  unfolding get_derived_kubernetes
  passthrough_mode_passes snapshot ctx target p w client single mode kept h =
      let shared = (get_or_build_sts_config env snapshot p).0 in
      let (ctx', exchanged, given) =
        exchanged-inr env target (get_or_build_sts_config env snapshot p).1
          (exchange_token_in_context env snapshot.oidc_provider target shared ctx w) shared client
          h in
      elim (exchange_in-passthrough snapshot.oidc_provider target shared ctx ctx' w single mode
        (λ c e. ((get_or_build-Shares env snapshot p kept).1 c e).1) exchanged) [
          | inl none_left ↦
              let (later, made) = inner-inr env ctx' target _ none client none_left given in
              absurd ((derived_for-none env ctx' later client made).1 mode)
          | inr (user, token, has, passed, bears) ↦
              let (later, made) = inner-inr env ctx' target _ (some token) client bears.0 given in
              (
                (
                  user,
                  token,
                  has,
                  passed,
                  check_client-inr env (derived_client token (user_agent_of ctx')) client later
                        (env.client_error later) made
                      ∙ ap
                          (λ (a : Option String).
                            derived_client token
                              (let ua = deref a "" in if ua != "" then ua else custom_user_agent))
                          bears.1,
                ),
                get_derived-IsKept env (some snapshot) ctx target p w kept,
              )
        ]
