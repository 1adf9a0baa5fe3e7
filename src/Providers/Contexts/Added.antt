-- ===== src/Providers/Contexts/Added.antt =====
-- What calls for managers do to the targets of the provider of contexts
-- (pkg/kubernetes/provider_kubeconfig.go).
use kube_mcp_server.Base.{
  String, Bool, true, false, ◌⊎◌, ◌&&◌, ◌||◌, inl, inr, Option, none, some, [], ◌∷◌, ◌==◌, ◌≡◌,
  refl, sym, ap, subst, arith, map, contains, eq_iff, Option-cases,
}
use kube_mcp_server.Base.Assoc.{Assoc, lookup, insert}
use kube_mcp_server.Providers.{ProviderError, Clusters, new_kubeconfig_manager}
use kube_mcp_server.Providers.Contexts.Answered.{IsReady}
use kube_mcp_server.Providers.Contexts.{
  ContextProvider, manager_for_context, make_manager, store_manager, get_targets, found,
}

contains-insert :
    {V : Type 0} (key name : String) (value : V) (entries : Assoc V)
    → contains (map (λ e. e.0) (insert key value entries)) name
      ≡ (contains (map (λ e. e.0) entries) name || (key == name))
unfolding insert
contains-insert key name value [] = ground arith
contains-insert key name value (entry ∷ later) =
    ground (arith, contains-insert key name value later, eq_iff entry.0 key, eq_iff entry.0 name)

lookup-contains :
    {V : Type 0} (key : String) (value : V) (entries : Assoc V)
    → lookup key entries ≡ some value
    → contains (map (λ e. e.0) entries) key ≡ true
unfolding lookup
lookup-contains key value [] h = ground (arith, h)
lookup-contains key value (entry ∷ later) h = ground (arith, h, lookup-contains key value later)

found-some : {M : Type 0} (r : Option (Option M)) (m : M) → found r ≡ some m → r ≡ some (some m)
found-some none m h = ground (arith, h)
found-some (some r) m h = ap some h

-- Whether a manager is answered.
abbrev pub answered : {M : Type 0} → ProviderError ⊎ M → Bool
answered (inl e) = false
answered (inr m) = true

module _ {M : Type 0} (clusters : Clusters M) where
  -- The targets behind a call are those before it, and the context itself if a manager is answered.
  abbrev pub AddsTarget :
      String → ContextProvider M → Option ((ProviderError ⊎ M) × ContextProvider M) → Type 0
  AddsTarget context p r =
      (answer : ProviderError ⊎ M) × (p' : ContextProvider M) × (r ≡ some (answer, p'))
      × ((name : String)
          → contains (get_targets p') name
            ≡ (contains (get_targets p) name || (answered answer && (context == name))))

  kept-AddsTarget :
      (context : String) (p : ContextProvider M) (m : M)
      → found (lookup context p.managers) ≡ some m
      → AddsTarget context p (some (inr m, p))
  unfolding get_targets
  kept-AddsTarget context p m there = (
    inr m,
    p,
    refl,
    λ name.
        let here =
          lookup-contains context (some m) p.managers
            (found-some (lookup context p.managers) m there) in
        ground (arith, here, eq_iff context name),
  )

  stored-AddsTarget :
      (context : String) (p : ContextProvider M) (answer : ProviderError ⊎ M)
      → AddsTarget context p (some (store_manager clusters context answer p))
  unfolding get_targets
  stored-AddsTarget context p (inl e) = (inl e, p, refl, λ name. ground arith)
  stored-AddsTarget context p (inr m) = (
    inr m,
    record p { managers = insert context (some m) p.managers },
    refl,
    λ name. contains-insert context name (some m) p.managers,
  )

  -- Where the manager of the default context is there, a call for the manager of any context, with no
  -- other call in between, makes exactly that context a target besides those there were if it answers
  -- a manager, and leaves the targets as they were if it answers an error: no matter whether the
  -- kubeconfig has such a context.
  pub manager_for_context-AddsTarget :
      (context : String) (p : ContextProvider M)
      → IsReady p
      → AddsTarget context p (manager_for_context clusters context p (λ q. q))
  unfolding manager_for_context make_manager
  manager_for_context-AddsTarget context p ready =
      elim (Option-cases (found (lookup context p.managers))) [
        | inr (m, there) ↦
            let kept : manager_for_context clusters context p (λ q. q) ≡ some (inr m, p) =
              rw (there, manager_for_context) refl in
            subst (AddsTarget context p) (sym kept) (kept-AddsTarget context p m there)
        | inl missing ↦
            let base : found (lookup p.default_context p.managers) ≡ some ready.manager =
              ap found ready.there in
            let answer = new_kubeconfig_manager clusters context in
            let made : manager_for_context clusters context p (λ q. q)
                ≡ some (store_manager clusters context answer p) =
              rw (missing, manager_for_context) (rw (missing, base, make_manager) refl) in
            subst (AddsTarget context p) (sym made) (stored-AddsTarget context p answer)
      ]
