-- ===== src/Mcp/Prompts/Merged.antt =====
-- Which prompts are offered, and what a prompt's handler answers (pkg/prompts/prompts.go).
use Prim.Native.String as Str
use mathlib.Core.List.{Memᴰ}
use mathlib.Core.List.Memᴰ
use text.Mathlib.TextLemmas.{cons-append, nil-append}
use kube_mcp_server.Base.{
  String, ◌≡◌, refl, sym, ap, ◌∙◌, ◌≢◌, ◌↔◌, ◌⊎◌, inl, inr, true, false, not, ◌&&◌, ◌||◌, Option,
  none, some, List, [], ◌∷◌, arith, eq_iff, ◌==◌, is_some, is_none, any, keep, Bool-cases,
  Option-cases, subst,
}
use kube_mcp_server.Base.Assoc.{Assoc, lookup, insert, lookup-insert}
use kube_mcp_server.Base.Members.{mem-of-keep, mem-keep, any-false_iff}
use kube_mcp_server.Base.Text.{strip_prefix, has_prefix, contains_text, replace_from}
use kube_mcp_server.Mcp.{PromptArgument, ServerPrompt}
use kube_mcp_server.Mcp.Prompts.{
  ConfiguredPrompt, placeholder, substitute_one, substitute_arguments, missing_argument,
  create_prompt_handler, override_map, skip_overridden, merge_prompts,
}

module _ {K : Type 0} where
  lookup-override_map :
      (n : String) (ps : List (ServerPrompt K)) (m : Assoc (ServerPrompt K))
      → is_some (lookup n (override_map ps m))
        ≡ any (λ p. p.prompt.name == n) ps || is_some (lookup n m)
  unfolding override_map
  lookup-override_map n [] m = refl
  lookup-override_map n (p ∷ ps) m = ground (
    arith,
    lookup-override_map n ps (insert p.prompt.name p m),
    lookup-insert p.prompt.name n p m,
  )

  skip_overridden-keep :
      (m : Assoc (ServerPrompt K)) (ps : List (ServerPrompt K))
      → skip_overridden m ps ≡ keep (λ p. not (is_some (lookup p.prompt.name m))) ps
  unfolding skip_overridden
  skip_overridden-keep m [] = refl
  skip_overridden-keep m (p ∷ ps) = ground (arith, skip_overridden-keep m ps)

  is_free_iff :
      (p : ServerPrompt K) (override : List (ServerPrompt K))
      → (not (is_some (lookup p.prompt.name (override_map override []))) ≡ true)
        ↔ ((o : ServerPrompt K) → Memᴰ o override → o.prompt.name ≢ p.prompt.name)
  unfolding lookup
  is_free_iff p override = (
    λ h o d e. ground (
      arith,
      lookup-override_map p.prompt.name override [],
      (any-false_iff (λ o. o.prompt.name == p.prompt.name) override).0
          (ground (arith, lookup-override_map p.prompt.name override [])) o d,
      eq_iff o.prompt.name p.prompt.name,
    ),
    λ free. ground (
      arith,
      lookup-override_map p.prompt.name override [],
      (any-false_iff (λ o. o.prompt.name == p.prompt.name) override).1
          (λ o d. ground (arith, eq_iff o.prompt.name p.prompt.name, free o d)),
    ),
  )

  -- A prompt is in the merged list exactly if it is one of the overriding prompts, or one of the
  -- base prompts under a name that no overriding prompt has.
  pub merge_prompts_iff :
      (base override : List (ServerPrompt K)) (p : ServerPrompt K)
      → Memᴰ p (merge_prompts base override) ↔ (
          Memᴰ p override
          ⊎ (Memᴰ p base
              × ((o : ServerPrompt K) → Memᴰ o override → o.prompt.name ≢ p.prompt.name)))
  unfolding merge_prompts
  merge_prompts_iff base override p =
      let m = override_map override [] in
      let test = λ (q : ServerPrompt K). not (is_some (lookup q.prompt.name m)) in
      (
        λ d. elim (Memᴰ.append_cases (skip_overridden m base) d) [
          | inr over ↦ inl over
          | inl kept ↦
              let (db, free) =
                mem-of-keep test base p
                  (subst (λ l. Memᴰ p l) (skip_overridden-keep m base) kept) in
              inr (db, (is_free_iff p override).0 free)
        ],
        elim [
          | inl over ↦ Memᴰ.append_right (skip_overridden m base) over
          | inr (db, free) ↦ Memᴰ.append_left override (
              subst (λ l. Memᴰ p l) (sym (skip_overridden-keep m base))
                (mem-keep test base p db ((is_free_iff p override).1 free)))
        ],
      )

missing_argument_iff :
    (ps : List PromptArgument) (args : Assoc String)
    → (missing_argument ps args ≢ none) ↔ (
        (arg : PromptArgument) × Memᴰ arg ps
        × (arg.required ≡ true)
        × (lookup arg.name args ≡ none))
unfolding missing_argument
missing_argument_iff [] args = (λ h. absurd (h refl), λ (arg, d, _, _). elim d [ ])
missing_argument_iff (p ∷ ps) args =
    elim (Bool-cases (p.required && is_none (lookup p.name args))) [
      | inl missing ↦ (λ h. (p, Memᴰ.head refl, ground arith, ground arith), λ _ e. ground arith)
      | inr given ↦ (
        λ h.
            let (arg, d, required, absent) =
              (missing_argument_iff ps args).0 (λ e. h (rw given e)) in
            (arg, Memᴰ.tail d, required, absent),
        λ (arg, d, required, absent) e. elim (Memᴰ.cases_cons d) [
          | inl here ↦ ground (arith, rw here at required, rw here at absent)
          | inr later ↦
              (missing_argument_iff ps args).1 (arg, later, required, absent) (rw given at e)
        ],
      )
    ]

-- A prompt's handler fails exactly if one of the prompt's required arguments is missing from the
-- call's arguments; otherwise it returns messages.
pub create_prompt_handler-fails_iff :
    (p : ConfiguredPrompt) (args : Assoc String)
    → ((e : String) × (create_prompt_handler p args ≡ inl e)) ↔ (
        (arg : PromptArgument) × Memᴰ arg p.prompt.arguments
        × (arg.required ≡ true)
        × (lookup arg.name args ≡ none))
unfolding create_prompt_handler
create_prompt_handler-fails_iff p args =
    elim (Option-cases (missing_argument p.prompt.arguments args)) [
      | inl complete ↦ (
        λ (e, failed). ground (arith, rw (complete, create_prompt_handler) at failed),
        λ missing. absurd ((missing_argument_iff p.prompt.arguments args).1 missing complete),
      )
      | inr (name, lacks) ↦ (
        λ _. (missing_argument_iff p.prompt.arguments args).0 (λ e. ground (arith, e, lacks)),
        λ _. (
          Str.◌++◌ "required argument '" (Str.◌++◌ name "' is missing"),
          rw (lacks, create_prompt_handler) refl,
        ),
      )
    ]

-- The placeholders all begin with two braces.
abbrev two_braces : String → String
two_braces x = String.◌∷◌ "{" (String.◌∷◌ "{" x)

braces-strip : (s x : String) → has_prefix s "{{" ≡ false → has_prefix s (two_braces x) ≡ false
unfolding strip_prefix
braces-strip String.[] x h = refl
braces-strip (String.◌∷◌ c String.[]) x h = ground arith
braces-strip (String.◌∷◌ c (String.◌∷◌ d s)) x h = ground arith

replace_from-plain :
    (x new s : String) → contains_text s "{{" ≡ false → replace_from (two_braces x) new 0 s ≡ s
unfolding replace_from contains_text
replace_from-plain x new String.[] h = refl
replace_from-plain x new (String.◌∷◌ c s) h =
    let head = braces-strip (String.◌∷◌ c s) x (ground arith) in
    let rest = replace_from-plain x new s (ground arith) in rw (head, rest) refl

braces : (x : String) → Str.◌++◌ "{{" x ≡ two_braces x
braces x =
    cons-append "{" "{" x
    ∙ ap (λ t. String.◌∷◌ "{" t) (cons-append "{" "" x)
    ∙ ap two_braces (nil-append x)

replace_all-plain :
    (arg : PromptArgument) (new s : String)
    → contains_text s "{{" ≡ false
    → replace_from (placeholder arg) new 0 s ≡ s
replace_all-plain arg new s h =
    rw (braces (Str.◌++◌ arg.name "}}")) (replace_from-plain (Str.◌++◌ arg.name "}}") new s h)

substitute_one-plain :
    (s : String) (arg : PromptArgument) (value : Option String)
    → contains_text s "{{" ≡ false
    → substitute_one s arg value ≡ s
unfolding substitute_one
substitute_one-plain s arg none h = ground (arith, replace_all-plain arg "" s h)
substitute_one-plain s arg (some value) h = replace_all-plain arg value s h

-- A template in which no "{{" stands is rendered as it is, whatever the prompt's arguments and the
-- call's.
pub substitute_arguments-plain :
    (content : String) (prompt_args : List PromptArgument) (args : Assoc String)
    → contains_text content "{{" ≡ false
    → substitute_arguments content prompt_args args ≡ content
unfolding substitute_arguments
substitute_arguments-plain content [] args h = refl
substitute_arguments-plain content (arg ∷ rest) args h =
    ap (λ c. substitute_arguments c rest args)
      (substitute_one-plain content arg (lookup arg.name args) h)
    ∙ substitute_arguments-plain content rest args h
