-- ===== src/Exchange.antt =====
-- The exchange of tokens: pkg/tokenexchange. The configuration of a target is shared and mutable, so
-- every operation returns it with the client and the assertion that it has cached. Reading
-- certificates, signing, the HTTP client, the identity provider and the parsing of its answers are
-- parameters; times are nanoseconds since 1970, and durations are nanoseconds with a sign, so that the
-- expiry of an assertion may lie before 1970.
pub mod Assertions
pub mod Forms
pub mod Chain
pub mod Credentials
mod Tests
use Prim.Native.String as Str
use Prim.Native.Nat.{◌%◌, ◌^◌}
use kube_mcp_server.Base.{
  ℕ, suc, ◌+◌, ◌-◌, ◌*◌, ◌/◌, String, Bool, true, false, not, ◌&&◌, ◌||◌, ◌⊎◌, inl, inr, Option,
  none, some, List, [], ◌∷◌, ◌==◌, ◌!=◌, if◌then◌else◌, ltb, eqb,
}
use kube_mcp_server.Base.Int.{ℤ, pos, negsuc, ltz}
use kube_mcp_server.Base.Assoc.{Assoc, lookup, insert}

-- 5 minutes and 30 seconds
abbrev pub default_assertion_lifetime : ℕ
default_assertion_lifetime = 300_000_000_000

abbrev pub assertion_refresh_margin : ℕ
assertion_refresh_margin = 30_000_000_000

pub record TargetTokenExchangeConfig (N : Type 0) : Type 0 where
  pub token_url : String
  pub client_id : String
  pub client_secret : String
  pub audience : String
  pub subject_token_type : String
  pub subject_issuer : String
  pub scopes : List String
  pub ca_file : String
  pub auth_style : String
  pub client_cert_file : String
  pub client_key_file : String
  pub assertion_lifetime : ℤ
  pub client : Option N
  pub cached_assertion : String
  pub cached_assertion_expiry : ℤ

pub data ExchangeConfigError : Type 0 where
  cert_file_required key_file_required : ExchangeConfigError
  invalid_auth_style : String → ExchangeConfigError

unfoldable pub validate_style :
    {N : Type 0} → TargetTokenExchangeConfig N → Option ExchangeConfigError
validate_style c =
    if c.auth_style == "" || (c.auth_style == "params" || c.auth_style == "header")
    then none
    else if c.auth_style == "assertion"
    then if c.client_cert_file == ""
      then some cert_file_required
      else if c.client_key_file == ""
      then some key_file_required
      else none
    else some (invalid_auth_style c.auth_style)

-- Why an exchange fails: no HTTP client, no client assertion, no answer, an answer with another
-- status than 200, or one that cannot be read.
pub data ExchangeError : Type 0 where
  no_client no_assertion no_answer unreadable : String → ExchangeError
  refused : ℕ → String → ExchangeError

-- The claims of a client assertion, with their times in whole seconds.
pub record AssertionClaims : Type 0 where
  pub issuer : String
  pub subject : String
  pub audience : String
  pub id : String
  pub not_before : ℤ
  pub expiry : ℤ

pub record TokenResponse : Type 0 where
  pub access_token : String
  pub token_type : String
  pub expires_in : ℤ
  pub refresh_token : String

pub record OauthToken : Type 0 where
  pub access_token : String
  pub token_type : String
  pub refresh_token : String
  pub expiry : Option ℕ

pub data HttpReply : Type 0 where
  request_failed : String → HttpReply
  response : ℕ → String → HttpReply

-- What is called: the certificate and key in two files, the signed form of claims, the client for a
-- file of authorities, the clock, fresh identifiers, the token endpoint, the decoding of its answer,
-- and base64.
pub record Services (N K W : Type 0) : Type 0 where
  pub load_certificate_and_key : String → String → String ⊎ K
  pub sign : K → AssertionClaims → String ⊎ String
  pub new_client : String → String ⊎ N
  pub now : W → ℕ
  pub new_uuid : W → String × W
  pub post : N → String → Assoc String → Assoc String → W → HttpReply × W
  pub parse_response : String → String ⊎ TokenResponse
  pub base64 : String → String

abbrev pub is_zero : ℤ → Bool
is_zero (pos n) = eqb n 0
is_zero (negsuc n) = false

-- time.Time.Add
abbrev pub add_duration : ℕ → ℤ → ℤ
add_duration now (pos d) = pos (now + d)
add_duration now (negsuc d) = if ltb d now then pos (now - suc d) else negsuc (d - now)

-- jwt.NewNumericDate: the whole seconds, rounded down.
unfoldable pub unix_seconds : ℤ → ℤ
unix_seconds (pos t) = pos (t / 1_000_000_000)
unix_seconds (negsuc t) = negsuc (t / 1_000_000_000)

-- A time with a number of seconds added: `time.Duration(n) * time.Second` is the
-- product in 64 bits with a sign.
unfoldable pub add_seconds : ℕ → ℕ → ℕ
add_seconds now n =
    let d = n * 1_000_000_000 % 2 ^ 64 in if ltb d (2 ^ 63) then now + d else now - (2 ^ 64 - d)

-- The expiry is set only for a positive number of seconds.
abbrev pub expiry_of : ℤ → ℕ → Option ℕ
expiry_of (pos n) now = if eqb n 0 then none else some (add_seconds now n)
expiry_of (negsuc n) now = none

module _ {N K W : Type 0} (services : Services N K W) where
  abbrev pub Config : Type 0
  Config = TargetTokenExchangeConfig N

  abbrev pub lifetime_of : Config → ℤ
  lifetime_of c =
      if is_zero c.assertion_lifetime then pos default_assertion_lifetime else c.assertion_lifetime

  abbrev pub claims_at : Config → ℕ → String → AssertionClaims
  claims_at c now id = record {
    issuer = c.client_id;
    subject = c.client_id;
    audience = c.token_url;
    id = id;
    not_before = unix_seconds (pos now);
    expiry = unix_seconds (add_duration now (lifetime_of c));
  }

  abbrev pub with_expiry : ℤ → String ⊎ String → String ⊎ (String × ℤ)
  with_expiry expiry (inl e) = inl e
  with_expiry expiry (inr signed) = inr (signed, expiry)

  abbrev pub sign_claims : Config → ℕ → String → String ⊎ K → String ⊎ (String × ℤ)
  sign_claims c now id (inl e) = inl e
  sign_claims c now id (inr key) =
      with_expiry (add_duration now (lifetime_of c)) (services.sign key (claims_at c now id))

  -- BuildClientAssertion: the assertion and when it expires.
  unfoldable pub build_client_assertion : Config → W → (String ⊎ (String × ℤ)) × W
  build_client_assertion c w =
      let (id, w') = services.new_uuid w in
      (
        sign_claims c (services.now w) id
            (services.load_certificate_and_key c.client_cert_file c.client_key_file),
        w',
      )

  abbrev pub store_assertion : Config → (String ⊎ (String × ℤ)) × W → (String ⊎ String) × Config × W
  store_assertion c (inl e, w) = (inl e, c, w)
  store_assertion c (inr (assertion, expiry), w) = (
    inr assertion,
    record c { cached_assertion = assertion; cached_assertion_expiry = expiry },
    w,
  )

  unfoldable pub get_or_build_assertion : Config → W → (String ⊎ String) × Config × W
  unfolding build_client_assertion
  get_or_build_assertion c w =
      if c.cached_assertion != ""
        && ltz (pos (services.now w + assertion_refresh_margin)) c.cached_assertion_expiry
      then (inr c.cached_assertion, c, w)
      else store_assertion c (build_client_assertion c w)

  abbrev pub with_assertion :
      Assoc String
      → Assoc String
      → (String ⊎ String) × Config × W
      → (ExchangeError ⊎ (Assoc String × Assoc String)) × Config × W
  with_assertion form headers (inl e, c, w) = (inl (no_assertion e), c, w)
  with_assertion form headers (inr assertion, c, w) = (
    inr (
      insert "client_assertion" assertion (
          insert "client_assertion_type" "urn:ietf:params:oauth:client-assertion-type:jwt-bearer"
            (insert "client_id" c.client_id form)),
      headers,
    ),
    c,
    w,
  )

  -- injectClientAuth: the form and the headers with the client's credentials.
  unfoldable pub inject_client_auth :
      Config
      → Assoc String
      → Assoc String
      → W
      → (ExchangeError ⊎ (Assoc String × Assoc String)) × Config × W
  unfolding get_or_build_assertion insert
  inject_client_auth c form headers w =
      if c.client_id == ""
      then (inr (form, headers), c, w)
      else if c.auth_style == "header"
      then (
        inr (
          form,
          insert "Authorization"
              (Str.◌++◌ "Basic "
                (services.base64 (Str.◌++◌ c.client_id (Str.◌++◌ ":" c.client_secret))))
              headers,
        ),
        c,
        w,
      )
      else if c.auth_style == "assertion"
      then with_assertion form headers (get_or_build_assertion c w)
      else let named = insert "client_id" c.client_id form in
        (
          inr (
            if c.client_secret != "" then insert "client_secret" c.client_secret named else named,
            headers,
          ),
          c,
          w,
        )

  abbrev pub token_of : W → String ⊎ TokenResponse → ExchangeError ⊎ OauthToken
  token_of w (inl e) = inl (unreadable e)
  token_of w (inr r) = inr (record {
    access_token = r.access_token;
    token_type = r.token_type;
    refresh_token = r.refresh_token;
    expiry = expiry_of r.expires_in (services.now w);
  })

  abbrev pub read_answer : HttpReply × W → (ExchangeError ⊎ OauthToken) × W
  read_answer (request_failed e, w) = (inl (no_answer e), w)
  read_answer (response status body, w) =
      if not (eqb status 200)
      then (inl (refused status body), w)
      else (token_of w (services.parse_response body), w)

  -- doTokenExchange: the form is posted with the headers.
  unfoldable pub do_token_exchange :
      N → String → Assoc String → Assoc String → W → (ExchangeError ⊎ OauthToken) × W
  unfolding add_seconds
  do_token_exchange client token_url form headers w =
      read_answer (services.post client token_url form headers w)

  abbrev pub keep_client : Config → String ⊎ N → (ExchangeError ⊎ N) × Config
  keep_client c (inl e) = (inl (no_client e), c)
  keep_client c (inr client) = (inr client, record c { client = some client })

  -- HTTPClient: the client that was made first is used again.
  unfoldable pub http_client : Config → (ExchangeError ⊎ N) × Config
  http_client c = elim c.client [
    | some client ↦ (inr client, c)
    | none ↦ keep_client c (services.new_client c.ca_file)
  ]
