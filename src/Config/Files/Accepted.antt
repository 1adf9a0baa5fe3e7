-- ===== src/Config/Files/Accepted.antt =====
-- What a configuration that ReadToml accepts satisfies.
use mathlib.Core.List.{Memᴰ}
use mathlib.Core.List.Memᴰ.{cases_cons}
use kube_mcp_server.Base.{
  ℕ, suc, String, ◌&&◌, ◌⊎◌, inl, inr, Option, none, some, List, [], ◌∷◌, ◌==◌, ◌!=◌, ◌≡◌, refl,
  sym, ap, ◌∙◌, subst, arith, if◌then◌else◌, eq_iff, Bool-cases, Option-cases,
}
use kube_mcp_server.Base.Assoc.{Assoc, lookup, insert, lookup-insert}
use kube_mcp_server.Confirmation.{ConfirmationRule, RuleError, validate}
use kube_mcp_server.Config.Files.Toml.{
  ExtendedConfig, ExtensionError, accept_extension, accept_known, parse_extensions, DecodedConfig,
  rule_errors, ReadResult, check_rules, check_fallback, with_toolsets, with_providers, with_decoded,
  read_toml,
}

rule_errors-none :
    (i : ℕ) (rules : List ConfirmationRule) (r : ConfirmationRule)
    → rule_errors i rules ≡ []
    → Memᴰ r rules
    → validate r ≡ none
unfolding rule_errors
rule_errors-none i [] r e m = elim m [ ]
rule_errors-none i (x ∷ xs) r e m = elim (Option-cases (validate x)) [
  | inl good ↦ elim (cases_cons m) [
    | inl here ↦ subst (λ z. validate z ≡ none) (sym here) good
    | inr later ↦ rule_errors-none (suc i) xs r (rw good at e) later
  ]
  | inr (err, bad) ↦ ground (arith, rw bad at e)
]

accept-cases :
    {E : Type 0} (r : ExtensionError ⊎ Assoc E)
    → ((e : ExtensionError) × (r ≡ inl e)) ⊎ ((parsed : Assoc E) × (r ≡ inr parsed))
accept-cases (inl e) = inl (e, refl)
accept-cases (inr parsed) = inr (parsed, refl)

module _ {P E : Type 0} where
  -- An extension was parsed by the parser registered under its name, and found valid.
  pub record IsParsed (parsers : Assoc (P → String ⊎ ExtendedConfig E)) (name : String) (e : E)
      : Type 0 where
    pub parser : P → String ⊎ ExtendedConfig E
    pub primitive : P
    pub extension : ExtendedConfig E
    pub registered : lookup name parsers ≡ some parser
    pub parses : parser primitive ≡ inr extension
    pub valid : extension.invalid ≡ none
    pub is : extension.parsed ≡ e

  abbrev pub AllParsed : Assoc (P → String ⊎ ExtendedConfig E) → Assoc E → Type 0
  AllParsed parsers parsed =
      (name : String) (e : E) → lookup name parsed ≡ some e → IsParsed parsers name e

  accept_extension-AllParsed :
      (parsers : Assoc (P → String ⊎ ExtendedConfig E)) (name : String) (primitive : P)
      (parser : P → String ⊎ ExtendedConfig E) (answer : String ⊎ ExtendedConfig E)
      (parsed parsed' : Assoc E)
      → lookup name parsers ≡ some parser
      → parser primitive ≡ answer
      → AllParsed parsers parsed
      → accept_extension name answer parsed ≡ inr parsed'
      → AllParsed parsers parsed'
  accept_extension-AllParsed parsers name primitive parser (inl x) parsed parsed' known given all
        h =
      ground (arith, h)
  accept_extension-AllParsed parsers name primitive parser (inr c) parsed parsed' known given all
        h =
      elim (Option-cases c.invalid) [
        | inr (x, bad) ↦ ground (arith, rw bad at h)
        | inl good ↦ λ n e found.
            let same : insert name c.parsed parsed ≡ parsed' = cc (rw good at h) in
            let at_n : (if name == n then some c.parsed else lookup n parsed) ≡ some e =
              sym (lookup-insert name n c.parsed parsed) ∙ ap (lookup n) same ∙ found in
            elim (Bool-cases (name == n)) [
              | inl this ↦
                  subst (λ m. IsParsed parsers m e) ((eq_iff name n).0 this)
                    (record {
                      parser = parser;
                      primitive = primitive;
                      extension = c;
                      registered = known;
                      parses = given;
                      valid = good;
                      is = cc (rw this at at_n);
                    })
              | inr another ↦ all n e (rw another at at_n)
            ]
      ]

  accept_known-AllParsed :
      (parsers : Assoc (P → String ⊎ ExtendedConfig E)) (name : String) (primitive : P)
      (found : Option (P → String ⊎ ExtendedConfig E)) (parsed parsed' : Assoc E)
      → lookup name parsers ≡ found
      → AllParsed parsers parsed
      → accept_known found name primitive parsed ≡ inr parsed'
      → AllParsed parsers parsed'
  accept_known-AllParsed parsers name primitive none parsed parsed' known all h =
      subst (AllParsed parsers) (cc h) all
  accept_known-AllParsed parsers name primitive (some parser) parsed parsed' known all h =
      accept_extension-AllParsed parsers name primitive parser (parser primitive) parsed parsed'
        known refl all h

  parse_extensions-AllParsed :
      (parsers : Assoc (P → String ⊎ ExtendedConfig E)) (configs : Assoc P)
      (parsed parsed' : Assoc E)
      → AllParsed parsers parsed
      → parse_extensions parsers configs parsed ≡ inr parsed'
      → AllParsed parsers parsed'
  unfolding parse_extensions
  parse_extensions-AllParsed parsers [] parsed parsed' all h = subst (AllParsed parsers) (cc h) all
  parse_extensions-AllParsed parsers ((name, primitive) ∷ rest) parsed parsed' all h =
      elim (accept-cases (accept_known (lookup name parsers) name primitive parsed)) [
        | inl (e, bad) ↦ ground (arith, rw (bad, parse_extensions) at h)
        | inr (next, good) ↦
            parse_extensions-AllParsed parsers rest next parsed'
              (accept_known-AllParsed parsers name primitive (lookup name parsers) parsed next refl
                all good)
              (rw (good, parse_extensions) at h)
      ]

-- A configuration with its extensions that can be used.
pub record IsAccepted {P E : Type 0} (providers toolsets : Assoc (P → String ⊎ ExtendedConfig E))
    (c : DecodedConfig P) (for_providers for_toolsets : Assoc E) : Type 0 where
  pub fallback_known :
      (c.confirmation_fallback ≡ "")
      ⊎ (c.confirmation_fallback ≡ "allow")
      ⊎ (c.confirmation_fallback ≡ "deny")
  pub rules_valid : (r : ConfirmationRule) → Memᴰ r c.confirmation_rules → validate r ≡ none
  pub providers_parsed : AllParsed providers for_providers
  pub toolsets_parsed : AllParsed toolsets for_toolsets

module _ {P E : Type 0} (providers toolsets : Assoc (P → String ⊎ ExtendedConfig E)) where
  abbrev Accepted : ReadResult providers toolsets → Type 0
  Accepted r =
      (c : DecodedConfig P) (ps ts : Assoc E)
      → r ≡ inr (c, ps, ts)
      → IsAccepted providers toolsets c ps ts

  check_rules-lem :
      (c : DecodedConfig P) (ps ts : Assoc E) (errors : List (ℕ × RuleError))
      → rule_errors 0 c.confirmation_rules ≡ errors
      → (c.confirmation_fallback ≡ "")
        ⊎ (c.confirmation_fallback ≡ "allow")
        ⊎ (c.confirmation_fallback ≡ "deny")
      → AllParsed providers ps
      → AllParsed toolsets ts
      → Accepted (check_rules providers toolsets c ps ts errors)
  check_rules-lem c ps ts [] none_left known for_p for_t d ps' ts' h =
      let good : IsAccepted providers toolsets c ps ts = record {
        fallback_known = known;
        rules_valid = λ r m. rule_errors-none 0 c.confirmation_rules r none_left m;
        providers_parsed = for_p;
        toolsets_parsed = for_t;
      } in
      subst (λ (x : DecodedConfig P × Assoc E × Assoc E). IsAccepted providers toolsets x.0 x.1 x.2)
        (cc h) good
  check_rules-lem c ps ts (e ∷ es) none_left known for_p for_t d ps' ts' h = ground (arith, h)

  check_fallback-lem :
      (c : DecodedConfig P) (ps ts : Assoc E)
      → AllParsed providers ps
      → AllParsed toolsets ts
      → Accepted (check_fallback providers toolsets c ps ts)
  check_fallback-lem c ps ts for_p for_t d ps' ts' h =
      let fb = c.confirmation_fallback in
      elim (Bool-cases (fb != "" && (fb != "allow" && fb != "deny"))) [
        | inl unknown ↦ ground (arith, rw unknown at h)
        | inr known ↦
            check_rules-lem c ps ts (rule_errors 0 c.confirmation_rules) refl
              (ground (arith, known, eq_iff fb "", eq_iff fb "allow", eq_iff fb "deny")) for_p for_t
              d ps' ts' (rw known at h)
      ]

  nothing_parsed : (parsers : Assoc (P → String ⊎ ExtendedConfig E)) → AllParsed parsers []
  unfolding lookup
  nothing_parsed parsers name e found = ground (arith, found)

  with_toolsets-lem :
      (c : DecodedConfig P) (ps : Assoc E) (r : ExtensionError ⊎ Assoc E)
      → parse_extensions toolsets c.toolset_configs [] ≡ r
      → AllParsed providers ps
      → Accepted (with_toolsets providers toolsets c ps r)
  with_toolsets-lem c ps (inl e) given for_p d ps' ts' h = ground (arith, h)
  with_toolsets-lem c ps (inr ts) given for_p d ps' ts' h =
      check_fallback-lem c ps ts for_p
        (parse_extensions-AllParsed toolsets c.toolset_configs [] ts (nothing_parsed toolsets)
          given)
        d ps' ts' h

  with_providers-lem :
      (c : DecodedConfig P) (r : ExtensionError ⊎ Assoc E)
      → parse_extensions providers c.cluster_provider_configs [] ≡ r
      → Accepted (with_providers providers toolsets c r)
  with_providers-lem c (inl e) given d ps' ts' h = ground (arith, h)
  with_providers-lem c (inr ps) given d ps' ts' h =
      with_toolsets-lem c ps (parse_extensions toolsets c.toolset_configs []) refl
        (parse_extensions-AllParsed providers c.cluster_provider_configs [] ps
          (nothing_parsed providers) given)
        d ps' ts' h

  with_decoded-lem : (r : String ⊎ DecodedConfig P) → Accepted (with_decoded providers toolsets r)
  with_decoded-lem (inl e) d ps' ts' h = ground (arith, h)
  with_decoded-lem (inr c) d ps' ts' h =
      with_providers-lem c (parse_extensions providers c.cluster_provider_configs []) refl d ps' ts'
        h

  -- A configuration that ReadToml accepts: each of its confirmation rules is valid, its fallback is
  -- "allow", "deny" or left open, and each extension that it holds was parsed by the parser registered
  -- under its name and found valid.
  pub read_toml-IsAccepted :
      (decode : String → String ⊎ DecodedConfig P) (source : String) (c : DecodedConfig P)
      (ps ts : Assoc E)
      → read_toml providers toolsets decode source ≡ inr (c, ps, ts)
      → IsAccepted providers toolsets c ps ts
  unfolding read_toml
  read_toml-IsAccepted decode source c ps ts h = with_decoded-lem (decode source) c ps ts h
