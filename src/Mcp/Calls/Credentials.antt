-- ===== src/Mcp/Calls/Credentials.antt =====
-- A tool's handler behind the provider that exchanges tokens: the handler of pkg/mcp/gosdk.go asks the
-- provider of pkg/kubernetes/provider_token_exchange.go for its client. The OAuth state always has a
-- snapshot: the server starts with one and none is ever taken away
-- (pkg/kubernetes-mcp-server/cmd/root.go).
use kube_mcp_server.Base.{String, ◌⊎◌, inl, inr, none, some, ◌≡◌, ap, ◌∙◌, arith}
use kube_mcp_server.Config.{resolve_cluster_auth_mode}
use kube_mcp_server.Exchange.Chain.{Context, ChainError, Client, own_client, Snapshot}
use kube_mcp_server.Exchange.Chain as Chain
use kube_mcp_server.Exchange.Chain.Provider.{ExchangingProvider, get_derived_kubernetes}
use kube_mcp_server.Exchange.Chain.KubeconfigMode.{kubeconfig_mode_drops_tokens}
use kube_mcp_server.Mcp.{Tool}
use kube_mcp_server.Mcp.Calls.{
  RequestParams, get_string, Surroundings, ToolHandlerParams, Handler, Outcome, finish,
  tool_handler,
}
use kube_mcp_server.Mcp.Calls.Gate.{IsCleared, Stopped, tool_handler-Gated}

module _ {N W : Type 0} (error_text : ChainError → String) where
  abbrev pub reported :
      (ChainError ⊎ Client) × ExchangingProvider N × W
      → (String ⊎ Client) × (ExchangingProvider N × W)
  reported (inl e, p, w) = (inl (error_text e), (p, w))
  reported (inr client, p, w) = (inr client, (p, w))

  reported-inr :
      (r : (ChainError ⊎ Client) × ExchangingProvider N × W) (client : Client)
      → (reported r).0 ≡ inr client
      → r.0 ≡ inr client
  reported-inr (inl e, p, w) client h = ground (arith, h)
  reported-inr (inr c, p, w) client h = cc h

module _ {J R N K W : Type 0} (env : Chain.Surroundings R N K W) (snapshot_of : W → Snapshot)
    (error_text : ChainError → String) where
  -- The surroundings of the server, with the provider's clients.
  abbrev pub behind_exchange :
      Surroundings J Context Client (ExchangingProvider N × W)
      → Surroundings J Context Client (ExchangingProvider N × W)
  behind_exchange server = record server {
    get_derived_kubernetes = λ ctx target state.
        reported error_text
          (get_derived_kubernetes env (some (snapshot_of state.1)) ctx target state.0 state.1);
  }

  cleared_client :
      (server : Surroundings J Context Client (ExchangingProvider N × W)) (tool : Tool)
      (ctx : Context) (params : RequestParams) (state : ExchangingProvider N × W)
      (given : ToolHandlerParams J Context Client) (asked : ExchangingProvider N × W)
      → env.per_target ≡ none
      → resolve_cluster_auth_mode env.base.settings ≡ "kubeconfig"
      → IsCleared (behind_exchange server) tool ctx params state given asked
      → given.client ≡ own_client
  cleared_client server tool ctx params state given asked single mode cleared =
      ap (λ (g : ToolHandlerParams J Context Client). g.client) cleared.handed
      ∙ kubeconfig_mode_drops_tokens env (snapshot_of cleared.confirmed.1) ctx target
          cleared.confirmed.0 cleared.confirmed.1 cleared.client single mode
          (reported-inr error_text
            (get_derived_kubernetes env (some (snapshot_of cleared.confirmed.1)) ctx target
              cleared.confirmed.0 cleared.confirmed.1)
            cleared.client (ap (λ r. r.0) cleared.derived))
    where
      target : String
      target =
          get_string cleared.request (server.target_parameter_name cleared.confirmed)
            (server.default_target cleared.confirmed)

  -- What a call of a tool comes to, for every handler of the tool: the handler runs with a client that
  -- has no token of the caller, or the call ends without it.
  abbrev pub ServedByOwnClient :
      Surroundings J Context Client (ExchangingProvider N × W)
      → Tool
      → Context
      → RequestParams
      → ExchangingProvider N × W
      → Type 0
  ServedByOwnClient server tool ctx params state =
      ((given : ToolHandlerParams J Context Client) × (asked : ExchangingProvider N × W)
        × (given.client ≡ own_client)
        × ((handler : Handler J Context Client (ExchangingProvider N × W))
            → tool_handler (behind_exchange server) tool handler ctx params state
              ≡ finish (behind_exchange server) (handler given asked)))
      ⊎ ((r : Outcome (behind_exchange server)) × Stopped (behind_exchange server) r
          × ((handler : Handler J Context Client (ExchangingProvider N × W))
              → tool_handler (behind_exchange server) tool handler ctx params state ≡ r))

  -- A tool call from end to end where the cluster authentication is by kubeconfig and no target has an
  -- exchange of its own: whatever the caller's token, the configuration of the exchange and the rules
  -- are, the tool's handler runs with the manager's own client, or the call ends in an error that is the
  -- same for every handler.
  pub tool_call-ServedByOwnClient :
      (server : Surroundings J Context Client (ExchangingProvider N × W)) (tool : Tool)
      (ctx : Context) (params : RequestParams) (state : ExchangingProvider N × W)
      → env.per_target ≡ none
      → resolve_cluster_auth_mode env.base.settings ≡ "kubeconfig"
      → ServedByOwnClient server tool ctx params state
  tool_call-ServedByOwnClient server tool ctx params state single mode =
      elim (tool_handler-Gated (behind_exchange server) tool ctx params state) [
        | inl (given, asked, cleared, runs) ↦ inl (
          given,
          asked,
          cleared_client server tool ctx params state given asked single mode cleared,
          runs,
        )
        | inr (r, stops, uncleared, same) ↦ inr (r, stops, same)
      ]
