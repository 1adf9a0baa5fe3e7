-- ===== src/Exchange/Assertions.antt =====
-- The cache of client assertions (GetOrBuildAssertion of pkg/tokenexchange/assertion.go), and the
-- expiry of an exchanged token.
use Prim.Native.Nat.{◌%◌, ◌^◌}
use kube_mcp_server.Base.{
  ℕ, ◌+◌, ◌*◌, ◌≤◌, ◌<◌, String, ◌&&◌, ◌⊎◌, inl, inr, true, some, ◌≡◌, refl, arith, ◌!=◌, eq_iff,
  Bool-cases, subst,
}
use kube_mcp_server.Base.Int.{ℤ, pos, ltz}
use kube_mcp_server.Exchange.{
  TargetTokenExchangeConfig, Services, assertion_refresh_margin, lifetime_of, claims_at,
  add_duration, with_expiry, sign_claims, build_client_assertion, store_assertion,
  get_or_build_assertion, expiry_of, add_seconds,
}

module _ {N K W : Type 0} (services : Services N K W) where
  -- The assertion is the signed form of claims for the client of this configuration.
  pub record IsSigned (c : TargetTokenExchangeConfig N) (assertion : String) (expiry : ℤ)
      : Type 0 where
    pub key : K
    pub issued : ℕ
    pub id : String
    pub loaded : services.load_certificate_and_key c.client_cert_file c.client_key_file ≡ inr key
    pub signed : services.sign key (claims_at services c issued id) ≡ inr assertion
    pub lasts : expiry ≡ add_duration issued (lifetime_of services c)

  -- What the cache holds, if anything, is such an assertion with its expiry.
  abbrev pub IsGenuine : TargetTokenExchangeConfig N → Type 0
  IsGenuine c = (c.cached_assertion ≡ "") ⊎ IsSigned c c.cached_assertion c.cached_assertion_expiry

  with_expiry-inr :
      (expiry : ℤ) (r : String ⊎ String) (assertion : String) (e : ℤ)
      → with_expiry services expiry r ≡ inr (assertion, e)
      → (r ≡ inr assertion) × (e ≡ expiry)
  with_expiry-inr expiry (inl x) assertion e h = ground (arith, h)
  with_expiry-inr expiry (inr x) assertion e h = (cc h, cc h)

  sign_claims-IsSigned :
      (c : TargetTokenExchangeConfig N) (now : ℕ) (id : String) (key : String ⊎ K)
      (assertion : String) (expiry : ℤ)
      → services.load_certificate_and_key c.client_cert_file c.client_key_file ≡ key
      → sign_claims services c now id key ≡ inr (assertion, expiry)
      → IsSigned c assertion expiry × (expiry ≡ add_duration now (lifetime_of services c))
  sign_claims-IsSigned c now id (inl x) assertion expiry l h = ground (arith, h)
  sign_claims-IsSigned c now id (inr key) assertion expiry l h =
      let (signed, lasts) =
        with_expiry-inr (add_duration now (lifetime_of services c))
          (services.sign key (claims_at services c now id)) assertion expiry h in
      (
        record { key = key; issued = now; id = id; loaded = l; signed = signed; lasts = lasts },
        lasts,
      )

  -- What one call gives: the assertion, when it expires, and the cache behind it.
  abbrev pub Gives : TargetTokenExchangeConfig N → ℕ → String → TargetTokenExchangeConfig N → Type 0
  Gives c now assertion c' =
      (expiry : ℤ) × IsSigned c assertion expiry
      × ((ltz (pos (now + assertion_refresh_margin)) expiry ≡ true)
          ⊎ (expiry ≡ add_duration now (lifetime_of services c)))
      × IsGenuine c'

  store_assertion-Gives :
      (c : TargetTokenExchangeConfig N) (w w' : W) (built : String ⊎ (String × ℤ))
      (assertion : String)
      → ((a : String) (e : ℤ)
          → built ≡ inr (a, e)
          → IsSigned c a e × (e ≡ add_duration (services.now w) (lifetime_of services c)))
      → (store_assertion services c (built, w')).0 ≡ inr assertion
      → Gives c (services.now w) assertion (store_assertion services c (built, w')).1
  store_assertion-Gives c w w' (inl x) assertion from h = ground (arith, h)
  store_assertion-Gives c w w' (inr (a, e)) assertion from h =
      let (signed, lasts) = from a e refl in
      let same : a ≡ assertion = cc h in
      (
        e,
        subst (λ x. IsSigned c x e) same signed,
        inr lasts,
        inr (record {
          key = signed.key;
          issued = signed.issued;
          id = signed.id;
          loaded = signed.loaded;
          signed = signed.signed;
          lasts = signed.lasts;
        }),
      )

  -- An assertion that is used is never about to expire: it is the signed form of claims for this
  -- client and this token endpoint, and it expires more than 30 seconds from now, or it was made now
  -- with the configured lifetime, or else five minutes. What the cache holds afterwards is such an assertion again.
  pub get_or_build_assertion-Gives :
      (c : TargetTokenExchangeConfig N) (w : W) (assertion : String)
      → IsGenuine c
      → (get_or_build_assertion services c w).0 ≡ inr assertion
      → Gives c (services.now w) assertion (get_or_build_assertion services c w).1
  unfolding get_or_build_assertion build_client_assertion
  get_or_build_assertion-Gives c w assertion genuine h =
      elim (Bool-cases (
        c.cached_assertion != ""
        && ltz (pos (services.now w + assertion_refresh_margin)) c.cached_assertion_expiry)) [
          | inl fresh ↦ elim genuine [
            | inl empty ↦ ground (arith, eq_iff c.cached_assertion "", empty, fresh)
            | inr signed ↦
                let same : c.cached_assertion ≡ assertion = cc (rw fresh at h) in
                rw fresh (
                  c.cached_assertion_expiry,
                  subst (λ a. IsSigned c a c.cached_assertion_expiry) same signed,
                  inl (ground (arith, fresh)),
                  inr signed,
                )
          ]
          | inr stale ↦ rw stale (
              store_assertion-Gives c w (services.new_uuid w).1
                (sign_claims services c (services.now w) (services.new_uuid w).0
                  (services.load_certificate_and_key c.client_cert_file c.client_key_file))
                assertion
                (λ a e made.
                  sign_claims-IsSigned c (services.now w) (services.new_uuid w).0 _ a e refl made)
                (rw stale at h))
        ]

-- A token that is valid for up to 9,223,372,036 seconds expires that many seconds after it was
-- received: within these bounds the product of the 64-bit duration does not overflow.
pub expiry_of_bounds :
    (n now : ℕ) → 0 < n → n ≤ 9_223_372_036 → expiry_of (pos n) now ≡ some (now + n * 1_000_000_000)
unfolding add_seconds
expiry_of_bounds n now positive small =
    let small_product : n * 1_000_000_000 < 2 ^ 63 = omega arith in
    let whole : n * 1_000_000_000 % 2 ^ 64 ≡ n * 1_000_000_000 = omega arith in
    rw (whole) (ground arith)
