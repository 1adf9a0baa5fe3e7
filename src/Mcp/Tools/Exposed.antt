-- ===== src/Mcp/Tools/Exposed.antt =====
-- Which tools the clients see: `collectApplicableTools` of pkg/mcp/mcp.go against the configuration.
use Prim.Native.String as Str
use mathlib.Core.List.{Memᴰ}
use mathlib.Core.List.Memᴰ
use kube_mcp_server.Base.{
  String, ◌≡◌, refl, ap, ◌≢◌, ◌↔◌, inl, inr, Bool, true, false, Option, none, some, List, [], ◌∷◌,
  arith, eq_iff, contains, Bool-cases, subst,
}
use kube_mcp_server.Mcp.{
  Tool, ToolAnnotations, ServerTool, Toolset, is_cluster_aware, is_target_list_provider,
}
use kube_mcp_server.Mcp.Tools.{
  ToolOverride, ToolConfig, Targeting, context_parameter, is_tool_applicable,
  should_include_target_list_tool, lists, tool_filter, tool_mutator, keep_mutated, collect_from,
  collect_applicable_tools, describe, with_tool_overrides, with_target_list_tool,
  with_target_parameter,
}

-- A tool of one of the toolsets.
abbrev pub IsOffered : {H K : Type 0} → List (Toolset H K) → ServerTool H → Type 0
IsOffered {H} {K} toolsets raw = (s : Toolset H K) × Memᴰ s toolsets × Memᴰ raw s.tools

-- What the configuration asks of a tool under its final name.
pub record IsPermitted {H : Type 0} (c : ToolConfig) (t : ServerTool H) : Type 0 where
  pub read_only : c.read_only ≡ true → t.tool.annotations.read_only_hint ≡ some true
  pub not_destructive :
      c.disable_destructive ≡ true → t.tool.annotations.destructive_hint ≢ some true
  pub enabled :
      (names : List String) → c.enabled_tools ≡ some names → contains names t.tool.name ≡ true
  pub not_disabled :
      (names : List String) → c.disabled_tools ≡ some names → contains names t.tool.name ≡ false

-- What a tool that lists targets needs.
abbrev pub FitsTargets : {H : Type 0} → Targeting → ServerTool H → Type 0
FitsTargets p t =
    t.target_list_provider ≡ some true
    → (p.is_multi_target ≡ true)
      × (t.tool.name ≡ "configuration_contexts_list" → p.parameter_name ≡ context_parameter)
      × (t.tool.name ≡ Str.◌++◌ p.parameter_name "_list" → p.parameter_name ≢ context_parameter)

lists-enabled :
    (o : Option (List String)) (name : String)
    → ((names : List String) → o ≡ some names → contains names name ≡ true)
    → lists o true name ≡ true
lists-enabled none name h = refl
lists-enabled (some names) name h = h names refl

lists-disabled :
    (o : Option (List String)) (name : String)
    → ((names : List String) → o ≡ some names → contains names name ≡ false)
    → lists o false name ≡ false
lists-disabled none name h = refl
lists-disabled (some names) name h = h names refl

module _ {H : Type 0} where
  is_tool_applicable_iff :
      (c : ToolConfig) (t : ServerTool H) → (is_tool_applicable c t ≡ true) ↔ IsPermitted c t
  unfolding is_tool_applicable
  is_tool_applicable_iff c t = (
    λ h. record {
      read_only = ground arith;
      not_destructive = ground arith;
      enabled = λ names e. ground arith;
      not_disabled = λ names e. ground arith;
    },
    λ ok. ground (
      arith,
      lists-enabled c.enabled_tools t.tool.name ok.enabled,
      lists-disabled c.disabled_tools t.tool.name ok.not_disabled,
      ok.read_only,
      ok.not_destructive,
    ),
  )

  should_include_iff :
      (p : Targeting) (t : ServerTool H)
      → (should_include_target_list_tool p.parameter_name p.is_multi_target t ≡ true)
        ↔ FitsTargets p t
  unfolding should_include_target_list_tool is_target_list_provider
  should_include_iff p t = (
    λ h provider. ground (
      arith,
      eq_iff t.tool.name "configuration_contexts_list",
      eq_iff t.tool.name (Str.◌++◌ p.parameter_name "_list"),
      eq_iff p.parameter_name "context",
    ),
    λ fits. ground (
      arith,
      eq_iff t.tool.name "configuration_contexts_list",
      eq_iff t.tool.name (Str.◌++◌ p.parameter_name "_list"),
      eq_iff p.parameter_name "context",
      fits,
    ),
  )

  tool_filter_iff :
      (c : ToolConfig) (p : Targeting) (t : ServerTool H)
      → (tool_filter c p t ≡ true) ↔ (IsPermitted c t × FitsTargets p t)
  unfolding tool_filter kube_mcp_server.Mcp.Tools.composite_filter
  tool_filter_iff c p t = (
    λ h. ((is_tool_applicable_iff c t).0 (ground arith), (should_include_iff p t).0 (ground arith)),
    λ (ok, fits).
        ground (arith, (is_tool_applicable_iff c t).1 ok, (should_include_iff p t).1 fits),
  )

  mem_of_kept :
      (m : ServerTool H → ServerTool H) (f : ServerTool H → Bool) (t : ServerTool H)
      (ts : List (ServerTool H))
      → Memᴰ t (keep_mutated m f ts)
      → (raw : ServerTool H) × Memᴰ raw ts × (t ≡ m raw) × (f t ≡ true)
  unfolding keep_mutated
  mem_of_kept m f t [] d = elim d [ ]
  mem_of_kept m f t (raw ∷ ts) d = elim (Bool-cases (f (m raw))) [
    | inr no_fit ↦
        let (x, dx, e, ok) = mem_of_kept m f t ts (rw no_fit at d) in (x, Memᴰ.tail dx, e, ok)
    | inl fit ↦ elim (Memᴰ.cases_cons (rw fit at d)) [
      | inl e ↦ (raw, Memᴰ.head refl, e, rw e fit)
      | inr later ↦ let (x, dx, e, ok) = mem_of_kept m f t ts later in (x, Memᴰ.tail dx, e, ok)
    ]
  ]

  kept_of_mem :
      (m : ServerTool H → ServerTool H) (f : ServerTool H → Bool) (raw : ServerTool H)
      (ts : List (ServerTool H))
      → Memᴰ raw ts
      → f (m raw) ≡ true
      → Memᴰ (m raw) (keep_mutated m f ts)
  unfolding keep_mutated
  kept_of_mem m f raw [] d ok = elim d [ ]
  kept_of_mem m f raw (x ∷ ts) d ok = elim (Memᴰ.cases_cons d) [
    | inl e ↦ rw (rw e at ok) (Memᴰ.head (ap m e))
    | inr later ↦ elim (Bool-cases (f (m x))) [
      | inl fit ↦ rw fit (Memᴰ.tail (kept_of_mem m f raw ts later ok))
      | inr no_fit ↦ rw no_fit (kept_of_mem m f raw ts later ok)
    ]
  ]

module _ {H K : Type 0} where
  mem_of_collected :
      (m : ServerTool H → ServerTool H) (f : ServerTool H → Bool) (t : ServerTool H)
      (ss : List (Toolset H K))
      → Memᴰ t (collect_from m f ss)
      → (raw : ServerTool H) × IsOffered ss raw × (t ≡ m raw) × (f t ≡ true)
  unfolding collect_from
  mem_of_collected m f t [] d = elim d [ ]
  mem_of_collected m f t (s ∷ ss) d = elim (Memᴰ.append_cases (keep_mutated m f s.tools) d) [
    | inl here ↦
        let (raw, dr, e, ok) = mem_of_kept m f t s.tools here in
        (raw, (s, Memᴰ.head refl, dr), e, ok)
    | inr later ↦
        let (raw, (s', ds, dr), e, ok) = mem_of_collected m f t ss later in
        (raw, (s', Memᴰ.tail ds, dr), e, ok)
  ]

  collected_of_mem :
      (m : ServerTool H → ServerTool H) (f : ServerTool H → Bool) (raw : ServerTool H)
      (ss : List (Toolset H K))
      → IsOffered ss raw
      → f (m raw) ≡ true
      → Memᴰ (m raw) (collect_from m f ss)
  unfolding collect_from
  collected_of_mem m f raw [] (s, ds, dr) ok = elim ds [ ]
  collected_of_mem m f raw (x ∷ ss) (s, Memᴰ.head e, dr) ok =
      Memᴰ.append_left (collect_from m f ss) (kept_of_mem m f raw x.tools (rw e at dr) ok)
  collected_of_mem m f raw (x ∷ ss) (s, Memᴰ.tail ds, dr) ok =
      Memᴰ.append_right (keep_mutated m f x.tools) (collected_of_mem m f raw ss (s, ds, dr) ok)

  -- A tool is exposed exactly if it is the mutated form of a tool of one of the toolsets, the
  -- configuration permits that form (read-only, not destructive, listed as enabled, not listed as
  -- disabled, where it asks for these), and it suits the targets if it lists targets.
  pub collect_applicable_tools_iff :
      (lister : String → String → H) (c : ToolConfig) (p : Targeting) (ss : List (Toolset H K))
      (t : ServerTool H)
      → Memᴰ t (collect_applicable_tools lister c p ss) ↔ (
          (raw : ServerTool H) × IsOffered ss raw
          × (t ≡ tool_mutator lister c p raw)
          × IsPermitted c t
          × FitsTargets p t)
  unfolding collect_applicable_tools
  collect_applicable_tools_iff lister c p ss t = (
    λ d.
        let (raw, offered, e, ok) =
          mem_of_collected (tool_mutator lister c p) (tool_filter c p) t ss d in
        let (permitted, fits) = (tool_filter_iff c p t).0 ok in (raw, offered, e, permitted, fits),
    λ (raw, offered, e, permitted, fits). Memᴰ.cast e (
        collected_of_mem (tool_mutator lister c p) (tool_filter c p) raw ss offered
          (subst (λ x. tool_filter c p x ≡ true) e ((tool_filter_iff c p t).1 (permitted, fits)))),
  )
