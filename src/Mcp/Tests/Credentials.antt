-- ===== src/Mcp/Tests/Credentials.antt =====
-- A tool call with a caller's token, where the cluster authentication is by kubeconfig.
use kube_mcp_server.Base.{ℕ, String, suc, true, false, inl, inr, refl, none, some, []}
use kube_mcp_server.Base.Int.{pos}
use kube_mcp_server.Config.{StaticConfig, resolve_cluster_auth_mode}
use kube_mcp_server.Exchange.{Services, response}
use kube_mcp_server.Exchange.Chain as Chain
use kube_mcp_server.Exchange.Chain.{Context, ChainError, Client, Snapshot}
use kube_mcp_server.Exchange.Chain.Provider.{ExchangingProvider}
use kube_mcp_server.Mcp.{Tool}
use kube_mcp_server.Mcp.Calls.{call_tool, session_answer, Surroundings}
use kube_mcp_server.Mcp.Calls.Credentials.{ServedByOwnClient, tool_call-ServedByOwnClient}

abbrev services : Services ℕ ℕ ℕ
services = record {
  load_certificate_and_key = λ cert key. inl "none";
  sign = λ key claims. inl "none";
  new_client = λ ca. inr 7;
  now = λ w. w;
  new_uuid = λ w. ("id", w);
  post = λ client url form headers w. (response 401 "", suc w);
  parse_response = λ body. inl "none";
  base64 = λ s. s;
}

abbrev settings : StaticConfig ℕ
settings = record {
  list_output = "table";
  toolsets = [];
  cluster_provider_strategy = "";
  provider_strategies = [];
  require_oauth = true;
  oauth_audience = "";
  authorization_url = "";
  server_url = "";
  sse_base_url = "";
  certificate_authority = "";
  tls_cert = "";
  tls_key = "";
  require_tls = false;
  cluster_auth_mode = "kubeconfig";
  token_exchange_strategy = "";
  sts_audience = "cluster";
  rate_limit_rps = 0;
  rate_limit_burst = pos 0;
}

abbrev chain : Chain.Surroundings ℕ ℕ ℕ ℕ
chain = record {
  services = services;
  base = record {
    settings = settings;
    sts_client_id = "";
    sts_client_secret = "";
    sts_scopes = [];
    sts_auth_style = "";
    sts_client_cert_file = "";
    sts_client_key_file = "";
  };
  per_target = none;
  manager_for = λ t w. (inr tt, w);
  external_account = λ url base token w. (inl "not used", w);
  client_error = λ w. none;
}

abbrev server : Surroundings ℕ Context Client (ExchangingProvider ℕ × ℕ)
server = record {
  session = λ ctx. some (λ message state. (session_answer "accept", state));
  unmarshal = λ raw. inr [];
  rules = λ state. [];
  fallback = λ state. "allow";
  target_parameter_name = λ state. "context";
  default_target = λ state. "dev";
  get_derived_kubernetes = λ ctx target state. (inl "not used", state);
}

abbrev listing : Tool
listing = record {
  name = "pods_list";
  description = "";
  annotations = record {
    title = "";
    read_only_hint = some true;
    destructive_hint = none;
    idempotent_hint = none;
    open_world_hint = none;
  };
  input_schema = none;
}

abbrev caller : Context
caller = record { authorization = some "Bearer user"; user_agent = none }

abbrev snapshot_of : ℕ → Snapshot
snapshot_of w = record { oidc_provider = some "https://idp/token" }

abbrev error_text : ChainError → String
error_text e = "error"

tool_call-ServedByOwnClient_example :
    ServedByOwnClient chain snapshot_of error_text server listing caller
      (call_tool "pods_list" "")
      (record { sts_config = none; sts_token_url = "" }, 0)
tool_call-ServedByOwnClient_example =
    tool_call-ServedByOwnClient chain snapshot_of error_text server listing caller
      (call_tool "pods_list" "") (record { sts_config = none; sts_token_url = "" }, 0) refl
      (unfold resolve_cluster_auth_mode in refl)
