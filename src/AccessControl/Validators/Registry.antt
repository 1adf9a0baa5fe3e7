-- ===== src/AccessControl/Validators/Registry.antt =====
-- The registry of validator factories: pkg/kubernetes/validator_registry.go. A panic is `none`.
use Prim.Native.String as Str
use Prim.Native.Nat.{Ordering}
use kube_mcp_server.Base.{
  String, Bool, true, false, Option, none, some, List, [], ◌∷◌, if◌then◌else◌, is_some, map,
}
use kube_mcp_server.Base.Assoc.{Assoc, lookup, insert}
use kube_mcp_server.AccessControl.Validators.{Validator}

module _ {F : Type 0} where
  unfoldable pub register : String → F → Assoc F → Option (Assoc F)
  unfolding lookup insert
  register name factory factories =
      if is_some (lookup name factories) then none else some (insert name factory factories)

abbrev precedes : String → String → Bool
precedes s t = elim (Str.compare s t) [ Ordering.gt ↦ false | _ ↦ true ]

unfoldable pub sort_insert : String → List String → List String
sort_insert s [] = s ∷ []
sort_insert s (t ∷ ts) =
    let later = sort_insert s ts in if precedes s t then s ∷ t ∷ ts else t ∷ later

-- slices.Sort on texts
unfoldable pub sort_texts : List String → List String
unfolding sort_insert
sort_texts [] = []
sort_texts (s ∷ ss) = sort_insert s (sort_texts ss)

module _ {P W : Type 0} where
  -- The loop over the sorted names, with the factories that the map holds under them.
  unfoldable pub build : P → Assoc (P → Validator W) → List String → List (Validator W)
  unfolding lookup
  build providers factories [] = []
  build providers factories (name ∷ names) =
      let rest = build providers factories names in
      elim (lookup name factories) [ none ↦ rest | some factory ↦ factory providers ∷ rest ]

  unfoldable pub create_all : P → Assoc (P → Validator W) → List (Validator W)
  unfolding sort_texts build
  create_all providers factories =
      build providers factories (sort_texts (map (λ entry. entry.0) factories))
