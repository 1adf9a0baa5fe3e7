-- ===== src/Mcp/Tools/Targets.antt =====
-- What the mutators of pkg/mcp/tool_mutator.go keep and what they change, and the tools for targets.
use Prim.Native.String as Str
use mathlib.Core.List.{Memᴰ}
use kube_mcp_server.Base.{
  String, ◌≡◌, refl, sym, ap, ◌∙◌, ◌≢◌, ◌⊎◌, inl, inr, true, Option, none, some, List, [], arith,
  eq_iff, ◌==◌, if◌then◌else◌, deref, ◌&&◌, subst, Bool-cases,
}
use kube_mcp_server.Base.Assoc.{Assoc, lookup, lookup-insert}
use kube_mcp_server.Mcp.{PropertySchema, InputSchema, ServerTool, Toolset, is_cluster_aware}
use kube_mcp_server.Mcp.Tools.{
  ToolOverride, ToolConfig, Targeting, tool_mutator, collect_applicable_tools, describe,
  with_tool_overrides, with_target_list_tool, with_target_parameter, with_target_property,
  create_target_property, compose_mutators,
}
use kube_mcp_server.Mcp.Tools.Exposed.{IsOffered, collect_applicable_tools_iff}

-- The name that clients see.
abbrev pub exposed_name : Targeting → String → String
exposed_name p name = if name == "targets_list" then Str.◌++◌ p.parameter_name "_list" else name

-- What no mutator touches, and what becomes of the name and the handler.
pub record Mutated {H : Type 0} (lister : String → String → H) (p : Targeting)
    (raw t : ServerTool H) : Type 0 where
  pub same_read_only : t.tool.annotations.read_only_hint ≡ raw.tool.annotations.read_only_hint
  pub same_destructive : t.tool.annotations.destructive_hint ≡ raw.tool.annotations.destructive_hint
  pub same_lister_flag : t.target_list_provider ≡ raw.target_list_provider
  pub renamed : t.tool.name ≡ exposed_name p raw.tool.name
  pub handled : t.handler ≡ (
      if raw.tool.name == "targets_list"
      then lister p.parameter_name p.default_target
      else raw.handler)

module _ {H : Type 0} (lister : String → String → H) where
  described :
      (p : Targeting) (raw t : ServerTool H) (o : Option ToolOverride)
      → Mutated lister p raw t
      → Mutated lister p raw (describe t o)
  described p raw t none m = m
  described p raw t (some o) m = elim (Bool-cases (o.description == "")) [
    | inl empty ↦ rw empty m
    | inr given ↦ rw given (record {
      same_read_only = m.same_read_only;
      same_destructive = m.same_destructive;
      same_lister_flag = m.same_lister_flag;
      renamed = m.renamed;
      handled = m.handled;
    })
  ]

  overridden :
      (c : ToolConfig) (p : Targeting) (raw t : ServerTool H) (o : Option (Assoc ToolOverride))
      → Mutated lister p raw t
      → Mutated lister p raw (with_tool_overrides o t)
  unfolding with_tool_overrides
  overridden c p raw t none m = m
  overridden c p raw t (some overrides) m = described p raw t (lookup t.tool.name overrides) m

  listed :
      (p : Targeting) (raw : ServerTool H)
      → Mutated lister p raw (with_target_list_tool lister p (with_target_parameter p raw))
  unfolding with_target_list_tool with_target_parameter
  listed p raw = record {
    same_read_only = ground arith;
    same_destructive = ground arith;
    same_lister_flag = ground arith;
    renamed = ground arith;
    handled = ground arith;
  }

  pub tool_mutator-Mutated :
      (c : ToolConfig) (p : Targeting) (raw : ServerTool H)
      → Mutated lister p raw (tool_mutator lister c p raw)
  unfolding tool_mutator compose_mutators
  tool_mutator-Mutated c p raw =
      overridden c p raw (with_target_list_tool lister p (with_target_parameter p raw))
        c.tool_overrides (listed p raw)

-- The properties of a tool's schema; a nil schema or map has none.
abbrev pub schema_properties : Option InputSchema → Assoc PropertySchema
schema_properties none = []
schema_properties (some s) = deref s.properties []

with_target_property-lookup :
    (p : Targeting) (schema : Option InputSchema) (k : String)
    → lookup k (schema_properties (some (with_target_property p schema))) ≡ (
        if p.is_multi_target && (p.parameter_name == k)
        then some (create_target_property p.default_target p.parameter_name)
        else lookup k (schema_properties schema))
unfolding with_target_property
with_target_property-lookup p none k = elim (Bool-cases p.is_multi_target) [
  | inl multi ↦ rw multi (
      lookup-insert p.parameter_name k (create_target_property p.default_target p.parameter_name)
        [])
  | inr single ↦ rw single refl
]
with_target_property-lookup p (some s) k = elim (Bool-cases p.is_multi_target) [
  | inl multi ↦ rw multi (
      lookup-insert p.parameter_name k (create_target_property p.default_target p.parameter_name)
        (deref s.properties []))
  | inr single ↦ rw single refl
]

module _ {H : Type 0} where
  describe-schema :
      (t : ServerTool H) (o : Option ToolOverride)
      → (describe t o).tool.input_schema ≡ t.tool.input_schema
  describe-schema t none = refl
  describe-schema t (some o) = ground arith

  overrides-schema :
      (t : ServerTool H) (o : Option (Assoc ToolOverride))
      → (with_tool_overrides o t).tool.input_schema ≡ t.tool.input_schema
  unfolding with_tool_overrides
  overrides-schema t none = refl
  overrides-schema t (some overrides) = describe-schema t (lookup t.tool.name overrides)

  list_tool-schema :
      (lister : String → String → H) (p : Targeting) (t : ServerTool H)
      → (with_target_list_tool lister p t).tool.input_schema ≡ t.tool.input_schema
  unfolding with_target_list_tool
  list_tool-schema lister p t = ground arith

  target_parameter-schema :
      (p : Targeting) (t : ServerTool H)
      → is_cluster_aware t ≡ true
      → (with_target_parameter p t).tool.input_schema
        ≡ some (with_target_property p t.tool.input_schema)
  unfolding with_target_parameter
  target_parameter-schema p t aware = rw aware refl

  -- In the exposed form of a cluster-aware tool, whatever its schema was (missing and without
  -- properties included), the property under the name of the target parameter is the target
  -- selector if there are several targets; every other property, and with a single target each of
  -- them, is the one that the toolset gave.
  pub tool_mutator-lookup :
      (lister : String → String → H) (c : ToolConfig) (p : Targeting) (raw : ServerTool H)
      (k : String)
      → is_cluster_aware raw ≡ true
      → lookup k (schema_properties (tool_mutator lister c p raw).tool.input_schema) ≡ (
          if p.is_multi_target && (p.parameter_name == k)
          then some (create_target_property p.default_target p.parameter_name)
          else lookup k (schema_properties raw.tool.input_schema))
  unfolding tool_mutator compose_mutators
  tool_mutator-lookup lister c p raw k aware =
      ap (λ s. lookup k (schema_properties s))
        (overrides-schema (with_target_list_tool lister p (with_target_parameter p raw))
            c.tool_overrides
          ∙ list_tool-schema lister p (with_target_parameter p raw)
          ∙ target_parameter-schema p raw aware)
      ∙ with_target_property-lookup p raw.tool.input_schema k

module _ {H K : Type 0} where
  -- In read-only mode every exposed tool comes from a tool of a toolset that declares itself
  -- read-only: it keeps that tool's handler, or it is the list of targets and has the handler that
  -- lists them.
  pub read_only_exposes :
      (lister : String → String → H) (c : ToolConfig) (p : Targeting) (ss : List (Toolset H K))
      (t : ServerTool H)
      → c.read_only ≡ true
      → Memᴰ t (collect_applicable_tools lister c p ss)
      → (raw : ServerTool H) × IsOffered ss raw
        × (raw.tool.annotations.read_only_hint ≡ some true)
        × ((t.handler ≡ raw.handler)
            ⊎ ((raw.tool.name ≡ "targets_list")
                × (t.handler ≡ lister p.parameter_name p.default_target)))
  read_only_exposes lister c p ss t ro d =
      let (raw, offered, e, permitted, fits) = (collect_applicable_tools_iff lister c p ss t).0 d in
      let m = subst (λ x. Mutated lister p raw x) (sym e) (tool_mutator-Mutated lister c p raw) in
      (
        raw,
        offered,
        sym m.same_read_only ∙ permitted.read_only ro,
        elim (Bool-cases (raw.tool.name == "targets_list")) [
          | inl target_list ↦ inr ((eq_iff _ _).0 target_list, rw target_list at m.handled)
          | inr other ↦ inl (rw other at m.handled)
        ],
      )

  -- Of the two tools that list targets, configuration_contexts_list and the one named after the
  -- target parameter, never both are exposed, and neither is if there is a single target.
  pub target_lists_exclude :
      (lister : String → String → H) (c : ToolConfig) (p : Targeting) (ss : List (Toolset H K))
      (t u : ServerTool H)
      → Memᴰ t (collect_applicable_tools lister c p ss)
      → Memᴰ u (collect_applicable_tools lister c p ss)
      → t.target_list_provider ≡ some true
      → u.target_list_provider ≡ some true
      → t.tool.name ≡ "configuration_contexts_list"
      → (p.is_multi_target ≡ true) × (u.tool.name ≢ Str.◌++◌ p.parameter_name "_list")
  target_lists_exclude lister c p ss t u dt du lt lu contexts =
      let (_, _, _, _, fits_t) = (collect_applicable_tools_iff lister c p ss t).0 dt in
      let (_, _, _, _, fits_u) = (collect_applicable_tools_iff lister c p ss u).0 du in
      ((fits_t lt).0, λ e. (fits_u lu).2 e ((fits_t lt).1 contexts))
