-- ===== src/Providers/Contexts.antt =====
-- The provider of the contexts of a kubeconfig (pkg/kubernetes/provider_kubeconfig.go): its managers
-- are made when they are asked for. Its two critical sections under the lock are taken one after the
-- other: another call may come between the first look and the second.
pub mod Answered
pub mod Added
use kube_mcp_server.Base.{
  ℕ, String, Bool, true, false, not, ◌&&◌, ◌⊎◌, inl, inr, Option, none, some, List, [], ◌∷◌, ◌==◌,
  ◌!=◌, ◌≡◌, ◌≢◌, ◌↔◌, ◌<◌, refl, sym, ap, ◌∙◌, subst, arith, if◌then◌else◌, ltb, map, length,
  is_some, eq_iff, eq_refl, Bool-cases, Option-cases,
}
use kube_mcp_server.Base.Assoc.{Assoc, lookup, insert, lookup-insert}
use kube_mcp_server.Providers.{
  Kubeconfig, ProviderError, load_failed, default_context_of, Clusters, new_kubeconfig_manager,
}

-- A context's manager is nil until it is asked for.
pub record ContextProvider (M : Type 0) : Type 0 where
  pub default_context : String
  pub managers : Assoc (Option M)

module _ {M : Type 0} where
  -- The loop over the contexts of the kubeconfig.
  unfoldable pub add_contexts : String → List String → Assoc (Option M) → Assoc (Option M)
  unfolding insert
  add_contexts default [] managers = managers
  add_contexts default (name ∷ names) managers =
      add_contexts default names (if name == default then managers else insert name none managers)

  unfoldable pub managers_of : Kubeconfig → M → ContextProvider M
  unfolding default_context_of add_contexts
  managers_of raw m =
      let default = default_context_of raw in
      record {
        default_context = default;
        managers = add_contexts default raw.contexts ((default, some m) ∷ []);
      }

  unfoldable pub is_multi_target : ContextProvider M → Bool
  is_multi_target p = ltb 1 (length p.managers)

  -- GetTargets: the names, in an order that Go leaves open.
  unfoldable pub get_targets : ContextProvider M → List String
  get_targets p = map (λ entry. entry.0) p.managers

  abbrev pub found : Option (Option M) → Option M
  found none = none
  found (some m) = m

module _ {M : Type 0} (clusters : Clusters M) where
  abbrev pub with_raw : String ⊎ Kubeconfig → M → ProviderError ⊎ ContextProvider M
  with_raw (inl e) m = inl (load_failed e)
  with_raw (inr raw) m = inr (managers_of raw m)

  -- reset: an error leaves the provider as it was.
  unfoldable pub reset : ProviderError ⊎ ContextProvider M
  unfolding new_kubeconfig_manager managers_of
  reset = elim (new_kubeconfig_manager clusters "") [
    | inl e ↦ inl e
    | inr m ↦ with_raw clusters.loaded m
  ]

  abbrev pub store_manager :
      String → ProviderError ⊎ M → ContextProvider M → (ProviderError ⊎ M) × ContextProvider M
  store_manager context (inl e) p = (inl e, p)
  store_manager context (inr m) p =
      (inr m, record p { managers = insert context (some m) p.managers })

  -- managerForContext behind its first look: under the lock the map is read again. `none` is the
  -- dereference of a nil manager of the default context.
  unfoldable pub make_manager :
      String → ContextProvider M → Option ((ProviderError ⊎ M) × ContextProvider M)
  unfolding lookup insert new_kubeconfig_manager
  make_manager context p = elim (found (lookup context p.managers)) [
    | some m ↦ some (inr m, p)
    | none ↦ elim (found (lookup p.default_context p.managers)) [
      | none ↦ none
      | some base ↦ some (store_manager context (new_kubeconfig_manager clusters context) p)
    ]
  ]

  -- The whole call, with what other calls have made of the provider between the two looks.
  unfoldable pub manager_for_context :
      String
      → ContextProvider M
      → (ContextProvider M → ContextProvider M)
      → Option ((ProviderError ⊎ M) × ContextProvider M)
  unfolding make_manager
  manager_for_context context p others = elim (found (lookup context p.managers)) [
    | some m ↦ some (inr m, p)
    | none ↦ make_manager context (others p)
  ]
