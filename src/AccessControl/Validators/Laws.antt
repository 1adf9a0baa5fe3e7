-- ===== src/AccessControl/Validators/Laws.antt =====
-- What each validator guarantees (pkg/kubernetes/schema_validator.go,
-- pkg/kubernetes/rbac_validator.go).
use kube_mcp_server.Base.{
  ◌-◌, ◌≤◌, String, ◌≡◌, refl, ◌∙◌, ◌≢◌, ◌↔◌, ◌⊎◌, inl, inr, true, false, Option, none, some, arith,
  ◌==◌, eq_iff, leb, Bool-cases, Option-cases,
}
use kube_mcp_server.AccessControl.Url.{Gvr}
use kube_mcp_server.AccessControl.Validators.{
  ValidationRequest, ValidationError, invalid_field, ValidatorError, validation,
}
use kube_mcp_server.AccessControl.Validators.Rbac.{
  AccessReview, ReviewReply, reviewed, review_failed, AuthClient, can_i, judge_review, review_with,
  review_resource, rbac_validate,
}
use kube_mcp_server.AccessControl.Validators.Schema.{
  schema_cache_ttl, SchemaCache, KubectlError, convert_kubectl_validation_error, SchemaWorld, renew,
  serve, get_validator, judge_manifest, run_validator, schema_validate,
}

abbrev pub review_of : ValidationRequest → Gvr → AccessReview
review_of req gvr = record {
  namespace = req.namespace;
  verb = req.verb;
  group = gvr.group;
  version = gvr.version;
  resource = gvr.resource;
  name = req.resource_name;
}

-- The reviews that refuse.
abbrev pub IsRefused : {W : Type 0} → (W → AuthClient W) → ValidationRequest → W → Type 0
IsRefused {W} client req w =
    (gvr : Gvr) × (create : AccessReview → W → ReviewReply × W) × (req.gvr ≡ some gvr)
    × (req.verb ≢ "")
    × (client w ≡ some create)
    × ((create (review_of req gvr) w).0 ≡ reviewed false)

module _ {W : Type 0} (client : W → AuthClient W) (req : ValidationRequest) (w : W) where
  judge_review-refused :
      (gvr : Gvr) (r : ReviewReply × W) → (judge_review req gvr r).0 ≢ none → r.0 ≡ reviewed false
  unfolding judge_review
  judge_review-refused gvr (review_failed e, w') h = absurd (h refl)
  judge_review-refused gvr (reviewed true, w') h = absurd (h refl)
  judge_review-refused gvr (reviewed false, w') h = refl

  review_with-denies :
      (gvr : Gvr) (c : AuthClient W)
      → req.gvr ≡ some gvr
      → req.verb ≢ ""
      → client w ≡ c
      → (review_with req gvr c w).0 ≢ none
      → IsRefused client req w
  unfolding review_with can_i
  review_with-denies gvr none found verb made h = absurd (h refl)
  review_with-denies gvr (some create) found verb made h =
      (gvr, create, found, verb, made, judge_review-refused gvr (create (review_of req gvr) w) h)

  review_resource-denies :
      (g : Option Gvr)
      → req.gvr ≡ g
      → (review_resource client req g w).0 ≢ none
      → IsRefused client req w
  unfolding review_resource
  review_resource-denies none found h = absurd (h refl)
  review_resource-denies (some gvr) found h = elim (Bool-cases (req.verb == "")) [
    | inl empty ↦ absurd (h (rw empty))
    | inr given ↦
        review_with-denies gvr (client w) found (λ e. cc (given, (eq_iff req.verb "").1 e)) refl
          (rw given at h)
  ]

-- The check of permissions refuses a request exactly if it names a resource and a verb, there is a
-- client for reviews, and the review of just this access comes back with a refusal: a review that
-- fails, and a missing client, let the request pass.
pub rbac_validate-none_iff :
    {W : Type 0} (client : W → AuthClient W) (req : ValidationRequest) (w : W)
    → ((rbac_validate client req w).0 ≢ none) ↔ IsRefused client req w
unfolding rbac_validate
rbac_validate-none_iff client req w =
    (review_resource-denies client req w req.gvr refl, λ h. ground (arith, eq_iff req.verb "", h))

module _ {W V : Type 0} (world : SchemaWorld W V) where
  open world use {load, save, now, discovery, validate_bytes}

  -- Reading the store gives what was written to it, and writing does not move the clock.
  pub record StoreLaws : Type 0 where
    pub load-save : (c : SchemaCache V) (w : W) → load (save c w) ≡ c
    pub now-save : (c : SchemaCache V) (w : W) → now (save c w) ≡ now w

  renew-fresh :
      StoreLaws
      → (w : W) (v : V) (d : Option (Option V)) → (renew world d w).0 ≡ some v
      → let w' = (renew world d w).1 in
        ((load w').kubectl_validator ≡ some v)
        × (now w' - (load w').validator_cached_at ≤ schema_cache_ttl)
  unfolding renew
  renew-fresh laws w v none h = cc
  renew-fresh laws w v (some none) h = cc
  renew-fresh laws w v (some (some u)) h =
      rw
        (
          laws.load-save (record { kubectl_validator = some u; validator_cached_at = now w }) w,
          laws.now-save (record { kubectl_validator = some u; validator_cached_at = now w }) w,
        )
        (h, omega arith)

  serve-fresh :
      StoreLaws
      → (w : W) (v : V) (cached : Option V) → (load w).kubectl_validator ≡ cached
      → (serve world cached w).0 ≡ some v
      → let w' = (serve world cached w).1 in
        ((load w').kubectl_validator ≡ some v)
        × (now w' - (load w').validator_cached_at ≤ schema_cache_ttl)
  unfolding serve
  serve-fresh laws w v none found h = renew-fresh laws w v (discovery w) h
  serve-fresh laws w v (some u) found h =
      elim (Bool-cases (leb (now w - (load w).validator_cached_at) schema_cache_ttl)) [
        | inl young ↦ rw young (found ∙ (rw young at h), ground arith)
        | inr old ↦ rw old (renew-fresh laws w v (discovery w) (rw old at h))
      ]

  -- A validator of manifests is never served past its time: the one that `getValidator` returns is
  -- the one that the cache then holds, and it is at most 15 minutes old.
  pub get_validator-fresh :
      StoreLaws
      → (w : W) (v : V) → (get_validator world w).0 ≡ some v
      → let w' = (get_validator world w).1 in
        ((load w').kubectl_validator ≡ some v)
        × (now w' - (load w').validator_cached_at ≤ schema_cache_ttl)
  unfolding get_validator
  get_validator-fresh laws w v h = serve-fresh laws w v (load w).kubectl_validator refl h

  judge_manifest-refuses :
      (r : Option KubectlError × W) (e : ValidatorError)
      → (judge_manifest world r).0 ≡ some e
      → (x : ValidationError) × (e ≡ validation x) × (x.code ≡ invalid_field)
  unfolding judge_manifest convert_kubectl_validation_error
  judge_manifest-refuses (none, w) e h = cc
  judge_manifest-refuses (some x, w) e h =
      (convert_kubectl_validation_error x, ground arith, ground arith)

  run_validator-refuses :
      (body : String) (r : Option V × W) (e : ValidatorError)
      → (run_validator world body r).0 ≡ some e
      → (x : ValidationError) × (e ≡ validation x) × (x.code ≡ invalid_field)
  unfolding run_validator
  run_validator-refuses body (none, w) e h = cc
  run_validator-refuses body (some v, w) e h = judge_manifest-refuses _ e h

  -- Only a manifest is refused on account of the schema: if the validator refuses, the request
  -- creates or updates an object of a known kind and has a body, and the error is about a field.
  pub schema_validate-refuses :
      (req : ValidationRequest) (w : W) (e : ValidatorError)
      → (schema_validate world req w).0 ≡ some e
      → (req.gvk ≢ none)
        × (req.body ≢ "")
        × ((req.verb ≡ "create") ⊎ (req.verb ≡ "update"))
        × ((x : ValidationError) × (e ≡ validation x) × (x.code ≡ invalid_field))
  unfolding schema_validate
  schema_validate-refuses req w e h = elim (Option-cases req.gvk) [
    | inl no_gvk ↦ cc (rw no_gvk at h)
    | inr (gvk, found) ↦
        let h' = rw found at h in
        (
          ground arith,
          ground (arith, eq_iff req.body ""),
          ground (arith, eq_iff req.verb "create", eq_iff req.verb "update"),
          run_validator-refuses req.body (get_validator world w) e (ground (arith)),
        )
  ]
