-- ===== src/Exchange/Tests.antt =====
-- The exchange of tokens on concrete inputs. A world counts the requests to the token endpoint, and
-- the clock shows seconds.
use Prim.Native.String as Str
use kube_mcp_server.Base.{
  ℕ, suc, ◌+◌, ◌*◌, String, true, false, inl, inr, none, some, [], ◌∷◌, ◌≡◌, refl, arith,
}
use kube_mcp_server.Base.Int.{pos}
use kube_mcp_server.Base.Assoc.{Assoc, lookup, insert}
use kube_mcp_server.Config.{StaticConfig, resolve_cluster_auth_mode}
use kube_mcp_server.Exchange.{
  TargetTokenExchangeConfig, response, Services, inject_client_auth, get_or_build_assertion,
}
use kube_mcp_server.Exchange.Forms.{rfc8693, form_of, rfc8693_form, get_token_exchanger, entra_obo}
use kube_mcp_server.Exchange.Assertions.{Gives, get_or_build_assertion-Gives}
use kube_mcp_server.Exchange.Credentials.{sent_form-client_secret}
use kube_mcp_server.Exchange.Chain.{
  Context, own_client, derived_client, Snapshot, Surroundings, bearer_token,
}
use kube_mcp_server.Exchange.Chain.Provider.{
  ExchangingProvider, user_agent_of, get_derived_kubernetes,
}
use kube_mcp_server.Exchange.Chain.Passed.{Passed}
use kube_mcp_server.Exchange.Chain.Shared.{IsKept}
use kube_mcp_server.Exchange.Chain.KubeconfigMode.{kubeconfig_mode_drops_tokens}
use kube_mcp_server.Exchange.Chain.PassthroughMode.{passthrough_mode_passes}

abbrev services : Services ℕ ℕ ℕ
services = record {
  load_certificate_and_key = λ cert key. inr 1;
  sign = λ key claims. inr (Str.◌++◌ "signed:" claims.issuer);
  new_client = λ ca. inr 7;
  now = λ w. 10_000_000_000_000 + w * 1_000_000_000;
  new_uuid = λ w. ("id", w);
  post = λ client url form headers w. (response 200 "ok", suc w);
  parse_response = λ body. inr (record {
    access_token = "exchanged";
    token_type = "Bearer";
    expires_in = pos 60;
    refresh_token = "";
  });
  base64 = λ s. s;
}

abbrev target : TargetTokenExchangeConfig ℕ
target = record {
  token_url = "https://idp/token";
  client_id = "mcp";
  client_secret = "secret";
  audience = "cluster";
  subject_token_type = "urn:ietf:params:oauth:token-type:access_token";
  subject_issuer = "";
  scopes = "openid" ∷ "groups" ∷ [];
  ca_file = "";
  auth_style = "params";
  client_cert_file = "cert.pem";
  client_key_file = "key.pem";
  assertion_lifetime = pos 0;
  client = none;
  cached_assertion = "";
  cached_assertion_expiry = pos 0;
}

known_strategy : get_token_exchanger "entra-obo" ≡ some entra_obo
unfolding get_token_exchanger
known_strategy = refl

requested_scope : lookup "scope" (rfc8693_form target "user") ≡ some (Str.◌++◌ "openid" " groups")
unfolding rfc8693_form lookup
requested_scope = refl

-- The assertion is made anew, and asked again it comes from the cache.
cached_again :
    (get_or_build_assertion services (get_or_build_assertion services target 3).1 9).0
    ≡ inr (Str.◌++◌ "signed:" "mcp")
unfolding get_or_build_assertion
cached_again = refl

first_assertion : (get_or_build_assertion services target 3).0 ≡ inr (Str.◌++◌ "signed:" "mcp")
unfolding get_or_build_assertion
first_assertion = refl

get_or_build_assertion-Gives_example :
    Gives services target
      (services.now 3)
      (Str.◌++◌ "signed:" "mcp")
      (get_or_build_assertion services target 3).1
get_or_build_assertion-Gives_example =
    get_or_build_assertion-Gives services target 3 (Str.◌++◌ "signed:" "mcp") (inl refl)
      first_assertion

abbrev sent : Assoc String
sent = insert "client_secret" "secret" (insert "client_id" "mcp" (rfc8693_form target "user"))

sent_inject :
    (inject_client_auth services target (form_of rfc8693 target "user") [] 3).0 ≡ inr (sent, [])
unfolding inject_client_auth
sent_inject = refl

sent_form-client_secret_example : lookup "client_secret" sent ≡ some "secret"
sent_form-client_secret_example =
    sent_form-client_secret services rfc8693 target "user" 3 sent [] sent_inject

abbrev settings : StaticConfig ℕ
settings = record {
  list_output = "table";
  toolsets = [];
  cluster_provider_strategy = "";
  provider_strategies = [];
  require_oauth = true;
  oauth_audience = "";
  authorization_url = "";
  server_url = "";
  sse_base_url = "";
  certificate_authority = "";
  tls_cert = "";
  tls_key = "";
  require_tls = false;
  cluster_auth_mode = "";
  token_exchange_strategy = "rfc8693";
  sts_audience = "cluster";
  rate_limit_rps = 0;
  rate_limit_burst = pos 0;
}

abbrev surroundings : StaticConfig ℕ → Surroundings ℕ ℕ ℕ ℕ
surroundings s = record {
  services = services;
  base = record {
    settings = s;
    sts_client_id = "mcp";
    sts_client_secret = "secret";
    sts_scopes = [];
    sts_auth_style = "";
    sts_client_cert_file = "";
    sts_client_key_file = "";
  };
  per_target = none;
  manager_for = λ t w. (inr tt, w);
  external_account = λ url base token w. (inl "not used", w);
  client_error = λ w. none;
}

abbrev by_kubeconfig : StaticConfig ℕ
by_kubeconfig = record settings { cluster_auth_mode = "kubeconfig"; token_exchange_strategy = "" }

abbrev asking : Context
asking = record { authorization = some "Bearer user"; user_agent = some "agent" }

abbrev empty_provider : ExchangingProvider ℕ
empty_provider = record { sts_config = none; sts_token_url = "" }

abbrev snapshot : Snapshot
snapshot = record { oidc_provider = some "https://idp/token" }

own_served :
    (get_derived_kubernetes
      (surroundings by_kubeconfig)
      (some snapshot)
      asking
      ""
      empty_provider
      3).0
    ≡ inr own_client
unfolding get_derived_kubernetes
own_served = refl

kubeconfig_mode_drops_tokens_example : own_client ≡ own_client
kubeconfig_mode_drops_tokens_example =
    kubeconfig_mode_drops_tokens (surroundings by_kubeconfig) snapshot asking "" empty_provider 3
      own_client refl (unfold resolve_cluster_auth_mode in refl) own_served

exchanged_served :
    (get_derived_kubernetes (surroundings settings) (some snapshot) asking "" empty_provider 3).0
    ≡ inr (derived_client "exchanged" "agent")
unfolding get_derived_kubernetes
exchanged_served = refl

passthrough_mode_passes_example :
    ((user token : String) × (bearer_token asking ≡ some user)
      × Passed (surroundings settings) snapshot.oidc_provider user token
      × (derived_client "exchanged" "agent" ≡ derived_client token (user_agent_of asking)))
    × IsKept
        (surroundings settings)
        (get_derived_kubernetes
          (surroundings settings)
          (some snapshot)
          asking
          ""
          empty_provider
          3).1
passthrough_mode_passes_example =
    passthrough_mode_passes (surroundings settings) snapshot asking "" empty_provider 3
      (derived_client "exchanged" "agent") refl (unfold resolve_cluster_auth_mode in refl)
      (λ c e. ground (arith, e)) exchanged_served
