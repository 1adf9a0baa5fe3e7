-- ===== src/Exchange/Chain/Derived.antt =====
-- The client that is derived for a request, with or without a token (`Derived` of
-- pkg/kubernetes/manager.go, `GetDerivedKubernetes` of provider_token_exchange.go).
use kube_mcp_server.Base.{String, ◌⊎◌, inl, inr, Option, none, some, ◌≡◌, ◌≢◌, refl, arith, eq_iff}
use kube_mcp_server.Config.{resolve_cluster_auth_mode}
use kube_mcp_server.Exchange.Chain.{
  Context, ChainError, Client, own_client, Surroundings, bearer_token, Cached,
}
use kube_mcp_server.Exchange.Chain.Provider.{
  ExchangingProvider, check_client, derived_for, derived, derive_with, inner_derived_kubernetes,
  derive_exchanged,
}

module _ {R N K W : Type 0} (env : Surroundings R N K W) where
  -- A derived client, with or without a token.
  pub derived_for-none :
      (ctx : Context) (w : W) (client : Client)
      → (derived_for env none ctx w).0 ≡ inr client
      → (client ≡ own_client) × (resolve_cluster_auth_mode env.base.settings ≢ "passthrough")
  derived_for-none ctx w client h = (
    ground (arith, h),
    λ e. ground (arith, h, eq_iff (resolve_cluster_auth_mode env.base.settings) "passthrough", e),
  )

  pub check_client-inr :
      (c client : Client) (w : W) (e : Option String)
      → (check_client env c w e).0 ≡ inr client
      → client ≡ c
  check_client-inr c client w none h = cc h
  check_client-inr c client w (some e) h = ground (arith, h)

  derived-inr :
      (ctx : Context) (w : W) (token : Option String) (client : Client)
      → bearer_token ctx ≡ token
      → (derived env ctx w).0 ≡ inr client
      → (derived_for env token ctx w).0 ≡ inr client
  unfolding derived
  derived-inr ctx w token client e h = rw e at h

  derive_with-inr :
      (ctx : Context) (m : (String ⊎ Unit {0}) × W) (token : Option String) (client : Client)
      → bearer_token ctx ≡ token
      → (derive_with env ctx m).0 ≡ inr client
      → (later : W) × ((derived_for env token ctx later).0 ≡ inr client)
  derive_with-inr ctx (inl x, w) token client e h = ground (arith, h)
  derive_with-inr ctx (inr x, w) token client e h = (w, derived-inr ctx w token client e h)

  pub inner-inr :
      (ctx : Context) (target : String) (w : W) (token : Option String) (client : Client)
      → bearer_token ctx ≡ token
      → (inner_derived_kubernetes env ctx target w).0 ≡ inr client
      → (later : W) × ((derived_for env token ctx later).0 ≡ inr client)
  unfolding inner_derived_kubernetes
  inner-inr ctx target w token client e h =
      derive_with-inr ctx (env.manager_for target w) token client e h

  -- What the provider does, with the context behind the exchange.
  pub exchanged-inr :
      (target : String) (p : ExchangingProvider N) (r : (ChainError ⊎ Context) × Cached env × W)
      (before : Cached env) (client : Client)
      → (derive_exchanged env target p r before).0 ≡ inr client
      → (ctx : Context) × (r.0 ≡ inr ctx)
        × (inner_derived_kubernetes env ctx target r.2).0 ≡ inr client
  exchanged-inr target p (inl e, after, w) before client h = ground (arith, h)
  exchanged-inr target p (inr ctx, after, w) before client h = (ctx, refl, h)
