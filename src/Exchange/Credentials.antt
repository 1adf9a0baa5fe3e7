-- ===== src/Exchange/Credentials.antt =====
-- Where the client's credentials stand in a request to the token endpoint (injectClientAuth of
-- pkg/tokenexchange/exchanger.go, together with the three exchangers).
use kube_mcp_server.Base.{
  String, ◌||◌, ◌⊎◌, inl, inr, Option, none, some, [], ◌≡◌, ◌∙◌, arith, ◌==◌, if◌then◌else◌,
  Bool-cases,
}
use kube_mcp_server.Base.Assoc.{Assoc, lookup, insert, lookup-insert}
use kube_mcp_server.Exchange.{
  TargetTokenExchangeConfig, Services, inject_client_auth, with_assertion, get_or_build_assertion,
}
use kube_mcp_server.Exchange.Forms.{TokenExchanger, form_of, form_of-no_secret}

module _ {N K W : Type 0} (services : Services N K W) where
  -- The secret goes into the form of a client that has a name and neither of the other two styles.
  abbrev pub secret_in_form : TargetTokenExchangeConfig N → Option String
  secret_in_form c =
      if c.client_id == ""
        || (c.auth_style == "header" || (c.auth_style == "assertion" || c.client_secret == ""))
      then none
      else some c.client_secret

  with_assertion-secret :
      (form headers : Assoc String) (made : (String ⊎ String) × TargetTokenExchangeConfig N × W)
      (form' headers' : Assoc String)
      → (with_assertion services form headers made).0 ≡ inr (form', headers')
      → lookup "client_secret" form' ≡ lookup "client_secret" form
  unfolding lookup
  with_assertion-secret form headers (inl e, c, w) form' headers' h = ground (arith, h)
  with_assertion-secret form headers (inr a, c, w) form' headers' h =
      let same : form'
          ≡ insert "client_assertion" a (
              insert "client_assertion_type"
                "urn:ietf:params:oauth:client-assertion-type:jwt-bearer"
                (insert "client_id" c.client_id form)) =
        cc h in
      rw same (unfold_free form a c)
    where
      unfold_free :
          (f : Assoc String) (x : String) (d : TargetTokenExchangeConfig N)
          → lookup "client_secret" (
              insert "client_assertion" x (
                insert "client_assertion_type"
                  "urn:ietf:params:oauth:client-assertion-type:jwt-bearer"
                  (insert "client_id" d.client_id f)))
            ≡ lookup "client_secret" f
      unfold_free f x d =
          lookup-insert "client_assertion" "client_secret" x _
          ∙ lookup-insert "client_assertion_type" "client_secret" _ _
          ∙ lookup-insert "client_id" "client_secret" d.client_id f

  inject_client_auth-secret :
      (c : TargetTokenExchangeConfig N) (form headers : Assoc String) (w : W)
      (form' headers' : Assoc String)
      → lookup "client_secret" form ≡ none
      → (inject_client_auth services c form headers w).0 ≡ inr (form', headers')
      → lookup "client_secret" form' ≡ secret_in_form c
  unfolding inject_client_auth
  inject_client_auth-secret c form headers w form' headers' empty h =
      elim (Bool-cases (c.client_id == "")) [
        | inl anonymous ↦ ground (arith, h, anonymous, empty)
        | inr named ↦ elim (Bool-cases (c.auth_style == "header")) [
          | inl header ↦ ground (arith, h, named, header, empty)
          | inr other ↦ elim (Bool-cases (c.auth_style == "assertion")) [
            | inl assertion ↦
                with_assertion-secret form headers (get_or_build_assertion services c w) form'
                  headers' (rw (named, other, assertion) at h)
                ∙ ground (arith, empty, named, other, assertion)
            | inr params ↦ ground (
              arith,
              h,
              named,
              other,
              params,
              empty,
              lookup-insert "client_secret" "client_secret" c.client_secret
                  (insert "client_id" c.client_id form),
              lookup-insert "client_id" "client_secret" c.client_id form,
            )
          ]
        ]
      ]

  -- The secret of a client stands in the body of a request for an exchange exactly if the client has
  -- a name and a secret, and its style of authentication is neither the header nor the signed
  -- assertion; whatever the exchanger.
  pub sent_form-client_secret :
      (exchanger : TokenExchanger) (c : TargetTokenExchangeConfig N) (token : String) (w : W)
      (form headers : Assoc String)
      → (inject_client_auth services c (form_of exchanger c token) [] w).0 ≡ inr (form, headers)
      → lookup "client_secret" form ≡ secret_in_form c
  sent_form-client_secret exchanger c token w form headers sent =
      inject_client_auth-secret c (form_of exchanger c token) [] w form headers
        (form_of-no_secret exchanger c token) sent
