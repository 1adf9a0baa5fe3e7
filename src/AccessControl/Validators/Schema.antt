-- ===== src/AccessControl/Validators/Schema.antt =====
-- The check of manifests against the cluster's schema: pkg/kubernetes/schema_validator.go. kubectl's
-- validator `V`, discovery and the clock are parameters; the cached validator is a part of the
-- world, which is read and written through a lens.
use kube_mcp_server.Base.{
  ℕ, ◌-◌, String, Bool, ◌&&◌, ◌||◌, Option, none, some, List, [], ◌∷◌, ◌==◌, ◌!=◌, leb,
  if◌then◌else◌,
}
use kube_mcp_server.Base.Text.{contains_text}
use kube_mcp_server.AccessControl.Validators.{
  ValidationRequest, ValidationError, invalid_field, ValidatorError, validation, Validator,
}

-- 15 minutes, in nanoseconds.
abbrev pub schema_cache_ttl : ℕ
schema_cache_ttl = 900_000_000_000

-- What `errors.As` finds in one error: an unknown field, a validation error with such an error
-- inside or without one, or neither.
pub data FieldError : Type 0 where
  unknown_field : String → FieldError
  wrapped : Option String → FieldError
  opaque_error : FieldError

-- An error of kubectl's validator, with its text.
pub data KubectlError : Type 0 where
  aggregate : String → List FieldError → KubectlError
  single : String → FieldError → KubectlError

abbrev pub error_text : KubectlError → String
error_text (aggregate text errors) = text
error_text (single text e) = text

unfoldable pub extract_unknown_field : FieldError → String
extract_unknown_field (unknown_field f) = f
extract_unknown_field (wrapped (some f)) = f
extract_unknown_field (wrapped none) = ""
extract_unknown_field opaque_error = ""

-- The loop over the aggregate, which breaks at the first field found.
unfoldable pub first_field : List FieldError → String
first_field [] = ""
first_field (e ∷ es) =
    let later = first_field es in
    if extract_unknown_field e != "" then extract_unknown_field e else later

unfoldable pub convert_kubectl_validation_error : KubectlError → ValidationError
convert_kubectl_validation_error (aggregate text errors) = record {
  code = invalid_field;
  message = text;
  field = first_field errors;
}
convert_kubectl_validation_error (single text e) = record {
  code = invalid_field;
  message = text;
  field = extract_unknown_field e;
}

pub record SchemaCache (V : Type 0) : Type 0 where
  pub kubectl_validator : Option V
  pub validator_cached_at : ℕ

-- What the validator uses of the world. `discovery` is `none` for a nil client and `some none` for
-- one that has no OpenAPI schema; else it makes a validator over the client.
pub record SchemaWorld (W V : Type 0) : Type 0 where
  pub load : W → SchemaCache V
  pub save : SchemaCache V → W → W
  pub now : W → ℕ
  pub discovery : W → Option (Option V)
  pub validate_bytes : V → String → W → Option KubectlError × W

module _ {W V : Type 0} (world : SchemaWorld W V) where
  open world use {load, save, now, discovery, validate_bytes}

  -- Renewing the cached validator.
  unfoldable pub renew : Option (Option V) → W → Option V × W
  renew none w = (none, w)
  renew (some none) w = (none, w)
  renew (some (some v)) w =
      (some v, save (record { kubectl_validator = some v; validator_cached_at = now w }) w)

  -- With the validator in the cache, which is served while it is young enough.
  unfoldable pub serve : Option V → W → Option V × W
  unfolding renew
  serve none w = renew (discovery w) w
  serve (some v) w =
      if leb (now w - (load w).validator_cached_at) schema_cache_ttl
      then (some v, w)
      else renew (discovery w) w

  unfoldable pub get_validator : W → Option V × W
  unfolding serve
  get_validator w = serve (load w).kubectl_validator w

  abbrev pub is_parsing_error : String → Bool
  is_parsing_error text = contains_text text "yaml:" || contains_text text "json:"

  unfoldable pub judge_manifest : Option KubectlError × W → Option ValidatorError × W
  judge_manifest (none, w) = (none, w)
  judge_manifest (some e, w) = (
    if is_parsing_error (error_text e)
        then none
        else some (validation (convert_kubectl_validation_error e)),
    w,
  )

  unfoldable pub run_validator : String → Option V × W → Option ValidatorError × W
  unfolding judge_manifest
  run_validator body (none, w) = (none, w)
  run_validator body (some v, w) = judge_manifest (validate_bytes v body w)

  unfoldable pub schema_validate : ValidationRequest → W → Option ValidatorError × W
  unfolding get_validator run_validator
  schema_validate req w = elim req.gvk [
    | none ↦ (none, w)
    | some gvk ↦
        if req.body == ""
        then (none, w)
        else if req.verb != "create" && req.verb != "update"
        then (none, w)
        else run_validator req.body (get_validator w)
  ]

  abbrev pub schema_validator : Validator W
  schema_validator = record { name = "schema"; validate = schema_validate }
