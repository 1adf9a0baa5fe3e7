-- ===== src/Providers/Registry.antt =====
-- The registry of provider factories, and NewProvider's choice (pkg/kubernetes/provider_registry.go,
-- provider.go).

use kube_mcp_server.Base.{
  String, Bool, ◌⊎◌, inl, inr, Option, none, some, List, ◌==◌, ◌≡◌, arith, if◌then◌else◌, map,
  Option-cases,
}
use kube_mcp_server.Base.Sort.{sort_strings}
use kube_mcp_server.Base.Assoc.{Assoc, lookup, insert, lookup-insert}
use kube_mcp_server.Providers.{ProviderError, strategy_unknown, resolve_strategy}

module _ {F : Type 0} where
  -- register: a strategy that is there already is a panic.
  unfoldable pub register_provider : String → F → Assoc F → Option (Assoc F)
  unfolding lookup insert
  register_provider strategy factory factories = elim (lookup strategy factories) [
    | some other ↦ none
    | none ↦ some (insert strategy factory factories)
  ]

  unfoldable pub strategies : Assoc F → List String
  unfolding sort_strings
  strategies factories = sort_strings (map (λ entry. entry.0) factories)

  unfoldable pub get_factory : String → Assoc F → ProviderError ⊎ F
  unfolding lookup strategies
  get_factory strategy factories = elim (lookup strategy factories) [
    | none ↦ inl (strategy_unknown strategy (strategies factories))
    | some factory ↦ inr factory
  ]

-- NewProvider: the provider that the factory makes, which exchanges tokens if there is OAuth.
unfoldable pub new_provider :
    {C P : Type 0}
    → Assoc (C → ProviderError ⊎ P)
    → String
    → String
    → Bool
    → Bool
    → (P → P)
    → C
    → ProviderError ⊎ P
unfolding get_factory resolve_strategy
new_provider factories strategy kubeconfig_path in_cluster with_oauth exchanging cfg =
    elim (get_factory (resolve_strategy strategy kubeconfig_path in_cluster) factories) [
      | inl e ↦ inl e
      | inr factory ↦ elim (factory cfg) [
        | inl e ↦ inl e
        | inr provider ↦ inr (if with_oauth then exchanging provider else provider)
      ]
    ]

module _ {F : Type 0} where
  -- What a registration changes: the strategy is looked up to the factory given, every other one as
  -- before; a registration that succeeds replaces none.
  pub register_provider-lookup :
      (strategy other : String) (factory : F) (factories factories' : Assoc F)
      → register_provider strategy factory factories ≡ some factories'
      → (lookup strategy factories ≡ none)
        × (lookup other factories'
            ≡ (if strategy == other then some factory else lookup other factories))
  unfolding register_provider
  register_provider-lookup strategy other factory factories factories' h =
      elim (Option-cases (lookup strategy factories)) [
        | inl free ↦
            let same : insert strategy factory factories ≡ factories' =
              cc (rw (free, register_provider) at h) in
            (free, rw (← same) (lookup-insert strategy other factory factories))
        | inr (f, taken) ↦ ground (arith, rw (taken, register_provider) at h)
      ]
