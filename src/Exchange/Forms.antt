-- ===== src/Exchange/Forms.antt =====
-- The exchangers of pkg/tokenexchange (keycloak_v1_exchanger.go, rfc8693_exchanger.go,
-- entra_obo_exchanger.go) and their registry (registry.go).
use Prim.Native.String as Str
use kube_mcp_server.Base.{
  String, false, ◌⊎◌, inl, inr, Option, none, some, List, [], ◌∷◌, ◌≡◌, refl, ◌∙◌, arith, ◌==◌,
  ◌!=◌, if◌then◌else◌,
}
use kube_mcp_server.Base.Assoc.{Assoc, lookup, insert, lookup-insert}
use kube_mcp_server.Exchange.{
  TargetTokenExchangeConfig, ExchangeError, OauthToken, Services, inject_client_auth,
  do_token_exchange, http_client,
}

pub data TokenExchanger : Type 0 where
  keycloak_v1 rfc8693 entra_obo : TokenExchanger

-- Registering a strategy twice is a panic: there is no registry then.
unfoldable pub register_exchanger :
    String → TokenExchanger → Option (Assoc TokenExchanger) → Option (Assoc TokenExchanger)
unfolding lookup insert
register_exchanger strategy exchanger none = none
register_exchanger strategy exchanger (some registry) = elim (lookup strategy registry) [
  | some other ↦ none
  | none ↦ some (insert strategy exchanger registry)
]

-- The package's init.
unfoldable pub registered_exchangers : Option (Assoc TokenExchanger)
unfolding register_exchanger
registered_exchangers =
    register_exchanger "entra-obo" entra_obo (
      register_exchanger "rfc8693" rfc8693 (register_exchanger "keycloak-v1" keycloak_v1 (some [])))

unfoldable pub get_token_exchanger : String → Option TokenExchanger
unfolding registered_exchangers
get_token_exchanger strategy = elim registered_exchangers [
  | some registry ↦ lookup strategy registry
  | none ↦ none
]

-- strings.Join(s, " ")
unfoldable pub join_spaces : List String → String
join_spaces [] = ""
join_spaces (s ∷ []) = s
join_spaces (s ∷ t ∷ rest) = Str.◌++◌ s (Str.◌++◌ " " (join_spaces (t ∷ rest)))

abbrev pub set_scopes : List String → Assoc String → Assoc String
set_scopes [] form = form
set_scopes (s ∷ rest) form = insert "scope" (join_spaces (s ∷ rest)) form

-- What the two exchangers of RFC 8693 have in common.
abbrev pub subject_form : String → String → String → Assoc String
subject_form token token_type audience = insert "audience" audience (
    insert "subject_token_type" token_type (
      insert "subject_token" token
        (insert "grant_type" "urn:ietf:params:oauth:grant-type:token-exchange" [])))

abbrev pub set_scopes_or_audience : List String → String → Assoc String → Assoc String
set_scopes_or_audience [] audience form =
    if audience != "" then insert "scope" audience form else form
set_scopes_or_audience (s ∷ rest) audience form = insert "scope" (join_spaces (s ∷ rest)) form

module _ {N : Type 0} where
  unfoldable pub keycloak_form : TargetTokenExchangeConfig N → String → Assoc String
  unfolding join_spaces insert
  keycloak_form c token =
      let form = subject_form token c.subject_token_type c.audience in
      set_scopes c.scopes
        (if c.subject_issuer != "" then insert "subject_issuer" c.subject_issuer form else form)

  unfoldable pub rfc8693_form : TargetTokenExchangeConfig N → String → Assoc String
  unfolding join_spaces insert
  rfc8693_form c token = set_scopes c.scopes (
      insert "requested_token_type" "urn:ietf:params:oauth:token-type:access_token"
        (subject_form token c.subject_token_type c.audience))

  unfoldable pub entra_form : TargetTokenExchangeConfig N → String → Assoc String
  unfolding join_spaces insert
  entra_form c token = set_scopes_or_audience c.scopes c.audience (
      insert "requested_token_use" "on_behalf_of" (
        insert "assertion" token
          (insert "grant_type" "urn:ietf:params:oauth:grant-type:jwt-bearer" [])))

  abbrev pub form_of : TokenExchanger → TargetTokenExchangeConfig N → String → Assoc String
  form_of keycloak_v1 c token = keycloak_form c token
  form_of rfc8693 c token = rfc8693_form c token
  form_of entra_obo c token = entra_form c token

module _ {N K W : Type 0} (services : Services N K W) where
  abbrev pub post_form :
      N
      → (ExchangeError ⊎ (Assoc String × Assoc String)) × TargetTokenExchangeConfig N × W
      → (ExchangeError ⊎ OauthToken) × TargetTokenExchangeConfig N × W
  post_form client (inl e, c, w) = (inl e, c, w)
  post_form client (inr (form, headers), c, w) =
      let (answer, w') = do_token_exchange services client c.token_url form headers w in
      (answer, c, w')

  abbrev pub with_client :
      TokenExchanger
      → String
      → W
      → (ExchangeError ⊎ N) × TargetTokenExchangeConfig N
      → (ExchangeError ⊎ OauthToken) × TargetTokenExchangeConfig N × W
  with_client exchanger token w (inl e, c) = (inl e, c, w)
  with_client exchanger token w (inr client, c) =
      post_form client (inject_client_auth services c (form_of exchanger c token) [] w)

  -- Exchange of each of the three: they differ in the form.
  unfoldable pub exchange :
      TokenExchanger
      → TargetTokenExchangeConfig N
      → String
      → W
      → (ExchangeError ⊎ OauthToken) × TargetTokenExchangeConfig N × W
  unfolding http_client inject_client_auth do_token_exchange keycloak_form rfc8693_form entra_form
  exchange exchanger c token w = with_client exchanger token w (http_client services c)

set_scopes-other :
    (scopes : List String) (form : Assoc String) (key : String)
    → ("scope" == key) ≡ false
    → lookup key (set_scopes scopes form) ≡ lookup key form
set_scopes-other [] form key other = refl
set_scopes-other (s ∷ rest) form key other =
    lookup-insert "scope" key (join_spaces (s ∷ rest)) form ∙ rw other

set_scopes_or_audience-other :
    (scopes : List String) (audience : String) (form : Assoc String) (key : String)
    → ("scope" == key) ≡ false
    → lookup key (set_scopes_or_audience scopes audience form) ≡ lookup key form
set_scopes_or_audience-other [] audience form key other =
    ground (arith, lookup-insert "scope" key audience form, other)
set_scopes_or_audience-other (s ∷ rest) audience form key other =
    lookup-insert "scope" key (join_spaces (s ∷ rest)) form ∙ rw other

-- No form of an exchanger holds a client's secret.
pub form_of-no_secret :
    {N : Type 0} (exchanger : TokenExchanger) (c : TargetTokenExchangeConfig N) (token : String)
    → lookup "client_secret" (form_of exchanger c token) ≡ none
unfolding keycloak_form rfc8693_form entra_form lookup insert
form_of-no_secret keycloak_v1 c token =
    set_scopes-other c.scopes _ "client_secret" refl ∙ ground arith
form_of-no_secret rfc8693 c token = set_scopes-other c.scopes _ "client_secret" refl
form_of-no_secret entra_obo c token =
    set_scopes_or_audience-other c.scopes c.audience _ "client_secret" refl
