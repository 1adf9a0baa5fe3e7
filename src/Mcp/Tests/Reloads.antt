-- ===== src/Mcp/Tests/Reloads.antt =====
-- Reloads and rate limits at concrete states. The SDK's stores are lists of names.

use kube_mcp_server.Base.{
  ℕ, ◌-◌, suc, String, ◌≡◌, refl, ◌≢◌, ◌↔◌, inr, Bool, true, false, not, Option, none, some, List,
  [], ◌∷◌, arith, contains, keep, eqb, ltb, eq_iff,
}
use kube_mcp_server.Base.Int.{pos}
use kube_mcp_server.Config.{invalid_toolset, validate}
use kube_mcp_server.Mcp.{ServerTool, Toolset}
use kube_mcp_server.Mcp.Prompts.{PromptHandler}
use kube_mcp_server.Mcp.Reload.{
  ItemStore, reload_items, StaticConfig, Services, Server, rejected, validated,
  reload_configuration,
}
use kube_mcp_server.Mcp.Reload.Configured.{reload_configuration-fails}
use kube_mcp_server.Mcp.RateLimit.{Rates, RateLimiterEntry, Limits, initial_limits, admit, reap}
use kube_mcp_server.Mcp.RateLimit.Requests.{Passes, admit_iff}
use kube_mcp_server.Mcp.RateLimit.Current.{
  RatesLaws, start, request, tick, IsCurrent, Reached-IsCurrent,
}

abbrev named_store : {T : Type 0} → String → (T → String) → ItemStore T (List String)
named_store kind name = record {
  item_kind = kind;
  get_name = name;
  add = λ t s. name t ∷ s;
  remove = λ names s. keep (λ n. not (contains names n)) s;
  has = contains;
}

abbrev hint : Option Bool → String → ServerTool ℕ
hint read_only name = record {
  tool = record {
    name = name;
    description = "";
    annotations = record {
      title = "";
      read_only_hint = read_only;
      destructive_hint = none;
      idempotent_hint = none;
      open_world_hint = none;
    };
    input_schema = none;
  };
  handler = 1;
  cluster_aware = none;
  target_list_provider = none;
}

abbrev toolset : String → ℕ → Toolset ℕ PromptHandler
toolset name provider = record {
  name = name;
  tools = hint (some true) "pods_list" ∷ hint none "pods_run" ∷ [];
  prompts = [];
}

abbrev services : Services ℕ ℕ ℕ (List String) (List String)
services = record {
  toolset_from_string = toolset;
  targeting =
      λ v. record { default_target = ""; parameter_name = "context"; is_multi_target = false };
  watch_targets = λ v. suc v;
  list_handler = λ p t. 9;
  tools = named_store "tool" (λ t. t.tool.name);
  prompts = named_store "prompt" (λ p. p.prompt.name);
  strategies = "kubeconfig" ∷ [];
  surroundings = record {
    toolset_names = "core" ∷ [];
    parse_url = λ u. inr "https";
    stat = λ path. none;
    is_negative = λ r. false;
  };
}

abbrev config : Bool → List String → StaticConfig ℕ
config read_only toolsets = record {
  tools = record {
    read_only = read_only;
    disable_destructive = false;
    enabled_tools = none;
    disabled_tools = none;
    tool_overrides = none;
  };
  prompts = [];
  settings = record {
    list_output = "yaml";
    toolsets = toolsets;
    cluster_provider_strategy = "";
    provider_strategies = [];
    require_oauth = false;
    oauth_audience = "";
    authorization_url = "";
    server_url = "";
    sse_base_url = "";
    certificate_authority = "";
    tls_cert = "";
    tls_key = "";
    require_tls = false;
    cluster_auth_mode = "";
    token_exchange_strategy = "";
    sts_audience = "";
    rate_limit_rps = 0;
    rate_limit_burst = pos 0;
  };
}

abbrev running : Server ℕ ℕ ℕ (List String) (List String)
running = record {
  config = config false ("core" ∷ []);
  toolsets = none;
  enabled_tools = "pods_list" ∷ "pods_run" ∷ [];
  enabled_prompts = [];
  sdk_tools = "pods_list" ∷ "pods_run" ∷ [];
  sdk_prompts = [];
  provider = 0;
}

abbrev read_only_core : StaticConfig ℕ
read_only_core = config true ("core" ∷ [])

abbrev unknown_toolset : StaticConfig ℕ
unknown_toolset = config true ("nope" ∷ [])

refused_toolset :
    (reload_configuration services unknown_toolset running).0
    ≡ some (rejected (invalid_toolset "nope"))
unfolding reload_configuration validate
refused_toolset = refl

reload_configuration-fails_example :
    ((validated services unknown_toolset).0 ≢ none)
    × ((reload_configuration services unknown_toolset running).1 ≡ running)
reload_configuration-fails_example =
    reload_configuration-fails services unknown_toolset running (rejected (invalid_toolset "nope"))
      refused_toolset

-- A limiter is the number of requests that it still allows.
abbrev counting : Rates ℕ ℕ
counting = record {
  zero_rate = 0;
  is_positive = λ r. ltb 0 r;
  same = eqb;
  new_limiter = λ r b. b;
  allow = λ now l. (ltb 0 l, l - 1);
}

counting_laws : RatesLaws counting
counting_laws = record { same-eq = λ x y p e. ground (arith, e) }

abbrev one_request : Limits ℕ ℕ
one_request = (admit counting 5 1 100 (some "a") (initial_limits counting)).1

second_refused : (admit counting 5 1 200 (some "a") one_request).0 ≡ false
unfolding admit initial_limits
second_refused = refl

admit_iff_example :
    ((admit counting 5 1 200 (some "a") one_request).0 ≡ true)
    ↔ Passes counting 5 1 200 (some "a") one_request
admit_iff_example = admit_iff counting 5 1 200 (some "a") one_request

Reached-IsCurrent_example : IsCurrent counting (5, 1) (reap counting 300 one_request)
Reached-IsCurrent_example =
    Reached-IsCurrent counting counting_laws (5, 1) (reap counting 300 one_request)
      (tick 300 (request 5 1 100 (some "a") start))

one_request_limit : counting.same 5 one_request.current_limit ≡ true
unfolding admit initial_limits
one_request_limit = refl

one_request_burst : 1 ≡ one_request.current_burst
unfolding admit initial_limits
one_request_burst = refl

a_is_not_b : ◌≢◌ {A = String} "b" "a"
a_is_not_b = ground (arith, eq_iff "b" "a")

abbrev seen_early : String × RateLimiterEntry ℕ
seen_early = ("a", record { limiter = 0; last_seen = 100 })
