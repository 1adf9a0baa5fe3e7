-- ===== src/Lib.antt =====
-- Verification of the Kubernetes MCP server (Go).
--
-- The server offers tools and prompts over MCP and carries out their calls on a Kubernetes cluster.
-- A request passes the authorization of HTTP requests and the rate limits, the tool is one of
-- those that the configuration makes applicable, the confirmation rules may ask the user, a provider
-- gives a client for the target, for which the caller's token may be exchanged, and every request to
-- the cluster goes through the access control round tripper. Watchers reload the tools when the
-- cluster or the kubeconfig has changed. The files model these parts:
--
--   Base             Go's strings, maps and slices as the models use them, and lemmas on them
--   Confirmation     confirmation rules: pkg/api/confirmation.go (ConfirmationRule, Validate) and
--                    pkg/confirmation (MatchToolLevelRules, MatchKubeLevelRules,
--                    MergeMatchedRules, CheckConfirmation, CheckToolRules, CheckKubeRules)
--   AccessControl    the round tripper: Url reads API paths, RoundTripper has RoundTrip, isAllowed and
--                    NewAccessControlRoundTripper (pkg/kubernetes/accesscontrol_round_tripper.go),
--                    Validators has the validators and their registry (pkg/kubernetes:
--                    rbac_validator.go, auth.go, schema_validator.go, confirmation_validator.go,
--                    validator_registry.go). The confirmation validator calls Confirmation.
--   Mcp              the server: Tools filters and mutates tools (pkg/mcp/tool_filter.go,
--                    tool_mutator.go), Prompts merges and renders prompts (pkg/prompts,
--                    pkg/mcp/prompt_mutator.go), Reload reloads both (pkg/mcp/mcp.go: reloadItems,
--                    reloadToolsets, ReloadConfiguration), RateLimit limits sessions
--                    (pkg/mcp/middleware.go: rateLimitingMiddleware), Calls has the handlers of a tool
--                    and of a prompt (pkg/mcp/gosdk.go, prompts_gosdk.go, elicit.go), which call
--                    Confirmation, in Headers the middlewares that fill the context, and in
--                    Credentials a tool call on top of Exchange
--   Auth             AuthorizationMiddleware of pkg/http/authorization.go, State the snapshots of
--                    pkg/oauth/state.go and the handler of SIGHUP
--                    (pkg/kubernetes-mcp-server/cmd/root.go: setupSIGHUPHandler), WellKnown the
--                    metadata of the well-known endpoints (pkg/http/wellknown.go)
--   Config           StaticConfig.Validate and what it calls (pkg/config/config.go, tls.go), and in
--                    Files the reading and merging of the files (Read, ReadToml, deepMerge;
--                    pkg/config/extended.go)
--   Exchange         the exchange of tokens: client credentials and assertions
--                    (pkg/tokenexchange/assertion.go, exchanger.go, config.go), Forms the exchangers
--                    and their registry, Chain the choice of an exchange
--                    (pkg/kubernetes/token_exchange.go) with the provider around it
--                    (provider_token_exchange.go) and the client that a manager derives (manager.go)
--   Providers        the registry of providers and NewProvider, Contexts the provider of a kubeconfig's
--                    contexts (pkg/kubernetes/provider_kubeconfig.go), Workspaces the discovery of kcp
--                    workspaces (pkg/kcp/workspace.go) and their provider (pkg/kcp/provider.go)
--   Watchers         the watchers of the cluster and of workspaces (pkg/kubernetes/watcher/cluster.go,
--                    pkg/kcp/workspace_watcher.go) and of the kubeconfig (watcher/kubeconfig.go):
--                    System has the interleavings of the goroutine, the timer, Watch and Close,
--                    Debounce the ticks and the timer in time
--   Kiali            the health of a mesh (pkg/kiali/health_calculation.go, types.go)
--
-- A handler is a function from a state to a result and the next state; an error is a value. Code
-- that the repository only calls is a parameter with named laws where a theorem relies on it: the
-- SDK's server (ItemStore and ItemStoreLaws), x/time/rate and floats (Rates, Floats, OrderLaws), the
-- REST mapper, the delegate and the clients of the round tripper, the libraries for JWT and OIDC
-- (Tokens), the authorization server and url.JoinPath (Web), keys, signatures, clocks and HTTP of the exchange (Services), the files and their decoding
-- (Files), the client libraries that make managers (Clusters, Surroundings), the tools' own handlers,
-- the elicitor, url.Parse, os.Stat and the parsing of JSON. A reload of the configuration calls the
-- validation that Config models.
--
-- Texts are sequences of code points; letters change case and white space is trimmed as in ASCII. A
-- Go map is an association list, whose order stands for the order of iteration that Go leaves open.
-- Numbers are unbounded: counts of entities, times in nanoseconds and replicas stay far below the
-- limits of int and int32; the one product that may leave them, the lifetime of a token, is taken
-- modulo 2 ^ 64. Every loop is a structural recursion on the list that it walks, apart from the sorting
-- of unhealthy entities, whose number of passes is the length of the list, and the discovery of
-- workspaces, which goes down to a depth: it is enough where the listings of the server end within it.
--
-- Watchers are step relations. The watcher that polls has its lock, which Close gives up while it waits;
-- the watcher of the kubeconfig takes each stretch of code under the lock as one step. The provider of
-- contexts lets other calls come between its two critical sections. Elsewhere locks are not modelled: each state is changed by one operation after the
-- other, and interleavings are sequences of such operations. Logging, tracing and metrics are left out,
-- as are the clients of Kubernetes, Helm, KubeVirt, Tekton and Kiali and the toolsets' own handlers.
pub mod Base
pub mod Confirmation
pub mod AccessControl
pub mod Mcp
pub mod Kiali
pub mod Auth
pub mod Config
pub mod Watchers
pub mod Exchange
pub mod Providers
