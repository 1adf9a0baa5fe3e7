-- ===== src/Config/Files/Toml.antt =====
-- ReadToml (pkg/config/config.go) and the registries of extended configurations
-- (pkg/config/extended.go). Decoding is a parameter.
use kube_mcp_server.Base.{
  ℕ, suc, String, ◌&&◌, ◌⊎◌, inl, inr, Option, none, some, List, [], ◌∷◌, ◌!=◌, if◌then◌else◌,
}
use kube_mcp_server.Base.Assoc.{Assoc, lookup, insert}
use kube_mcp_server.Confirmation.{ConfirmationRule, RuleError, validate}

-- A parsed extension, with the error of its own validation.
pub record ExtendedConfig (E : Type 0) : Type 0 where
  pub parsed : E
  pub invalid : Option String

pub data ExtensionError : Type 0 where
  parse_failed validation_failed : String → String → ExtensionError

abbrev pub accept_extension :
    {E : Type 0} → String → String ⊎ ExtendedConfig E → Assoc E → ExtensionError ⊎ Assoc E
accept_extension name (inl e) parsed = inl (parse_failed name e)
accept_extension name (inr c) parsed = elim c.invalid [
  | some e ↦ inl (validation_failed name e)
  | none ↦ inr (insert name c.parsed parsed)
]

module _ {P E : Type 0} where
  abbrev pub accept_known :
      Option (P → String ⊎ ExtendedConfig E) → String → P → Assoc E → ExtensionError ⊎ Assoc E
  accept_known none name primitive parsed = inr parsed
  accept_known (some parser) name primitive parsed = accept_extension name (parser primitive) parsed

  -- The loop of the registry's parse: a name without a parser is passed over.
  unfoldable pub parse_extensions :
      Assoc (P → String ⊎ ExtendedConfig E) → Assoc P → Assoc E → ExtensionError ⊎ Assoc E
  unfolding lookup insert
  parse_extensions parsers [] parsed = inr parsed
  parse_extensions parsers ((name, primitive) ∷ rest) parsed =
      elim (accept_known (lookup name parsers) name primitive parsed) [
        | inl e ↦ inl e
        | inr parsed' ↦ parse_extensions parsers rest parsed'
      ]

-- The settings that ReadToml looks into, behind the decoding.
pub record DecodedConfig (P : Type 0) : Type 0 where
  pub cluster_provider_configs : Assoc P
  pub toolset_configs : Assoc P
  pub confirmation_fallback : String
  pub confirmation_rules : List ConfirmationRule

pub data TomlError : Type 0 where
  undecodable : String → TomlError
  bad_extension : ExtensionError → TomlError
  invalid_fallback : String → TomlError
  invalid_rules : List (ℕ × RuleError) → TomlError

abbrev pub append_rule_error : ℕ → Option RuleError → List (ℕ × RuleError) → List (ℕ × RuleError)
append_rule_error i none errors = errors
append_rule_error i (some e) errors = (i, e) ∷ errors

-- The errors of the rules from the i-th on, each with its number.
unfoldable pub rule_errors : ℕ → List ConfirmationRule → List (ℕ × RuleError)
unfolding validate
rule_errors i [] = []
rule_errors i (r ∷ rs) = append_rule_error i (validate r) (rule_errors (suc i) rs)

module _ {P E : Type 0} (providers toolsets : Assoc (P → String ⊎ ExtendedConfig E)) where
  -- What ReadToml returns: the decoded settings with the parsed extensions.
  abbrev pub ReadResult : Type 0
  ReadResult = TomlError ⊎ (DecodedConfig P × Assoc E × Assoc E)

  abbrev pub check_rules : DecodedConfig P → Assoc E → Assoc E → List (ℕ × RuleError) → ReadResult
  check_rules c for_providers for_toolsets [] = inr (c, for_providers, for_toolsets)
  check_rules c for_providers for_toolsets (e ∷ es) = inl (invalid_rules (e ∷ es))

  abbrev pub check_fallback : DecodedConfig P → Assoc E → Assoc E → ReadResult
  check_fallback c for_providers for_toolsets =
      let fb = c.confirmation_fallback in
      if fb != "" && (fb != "allow" && fb != "deny")
      then inl (invalid_fallback fb)
      else check_rules c for_providers for_toolsets (rule_errors 0 c.confirmation_rules)

  abbrev pub with_toolsets : DecodedConfig P → Assoc E → ExtensionError ⊎ Assoc E → ReadResult
  with_toolsets c for_providers (inl e) = inl (bad_extension e)
  with_toolsets c for_providers (inr for_toolsets) = check_fallback c for_providers for_toolsets

  abbrev pub with_providers : DecodedConfig P → ExtensionError ⊎ Assoc E → ReadResult
  with_providers c (inl e) = inl (bad_extension e)
  with_providers c (inr for_providers) =
      with_toolsets c for_providers (parse_extensions toolsets c.toolset_configs [])

  abbrev pub with_decoded : String ⊎ DecodedConfig P → ReadResult
  with_decoded (inl e) = inl (undecodable e)
  with_decoded (inr c) = with_providers c (parse_extensions providers c.cluster_provider_configs [])

  -- ReadToml, with the decoding of the data onto the defaults.
  unfoldable pub read_toml : (String → String ⊎ DecodedConfig P) → String → ReadResult
  unfolding parse_extensions rule_errors
  read_toml decode data_text = with_decoded (decode data_text)
