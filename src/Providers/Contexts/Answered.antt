-- ===== src/Providers/Contexts/Answered.antt =====
-- A call for the manager of a context, with other calls in between (managerForContext of
-- pkg/kubernetes/provider_kubeconfig.go), and the state that `reset` makes.
use kube_mcp_server.Base.{
  String, true, false, ◌⊎◌, inl, inr, Option, none, some, List, [], ◌∷◌, ◌==◌, ◌≡◌, refl, ap, sym,
  ◌∙◌, subst, arith, if◌then◌else◌, is_some, eq_iff, eq_refl, Bool-cases,
}
use kube_mcp_server.Base.Assoc.{Assoc, lookup, insert, lookup-insert}
use kube_mcp_server.Providers.{
  Kubeconfig, ProviderError, default_context_of, Clusters, new_kubeconfig_manager,
}
use kube_mcp_server.Providers.Contexts.{
  ContextProvider, add_contexts, managers_of, found, with_raw, reset, store_manager, make_manager,
  manager_for_context,
}

-- The manager of the default context is there.
pub record IsReady {M : Type 0} (p : ContextProvider M) : Type 0 where
  pub manager : M
  pub there : lookup p.default_context p.managers ≡ some (some manager)

module _ {M : Type 0} where
  add_contexts-default :
      (default : String) (names : List String) (managers : Assoc (Option M))
      → lookup default (add_contexts default names managers) ≡ lookup default managers
  unfolding add_contexts
  add_contexts-default default [] managers = refl
  add_contexts-default default (name ∷ names) managers =
      add_contexts-default default names
        (if name == default then managers else insert name none managers)
      ∙ ground (arith, lookup-insert name default none managers)

  managers_of-IsReady : (raw : Kubeconfig) (m : M) → IsReady (managers_of raw m)
  unfolding managers_of lookup
  managers_of-IsReady raw m = record {
    manager = m;
    there =
        add_contexts-default (default_context_of raw) raw.contexts
          ((default_context_of raw, some m) ∷ [])
        ∙ rw (eq_refl (default_context_of raw));
  }

module _ {M : Type 0} (clusters : Clusters M) where
  reset-cases :
      (m : ProviderError ⊎ M) (p : ContextProvider M)
      → new_kubeconfig_manager clusters "" ≡ m
      → reset clusters ≡ inr p
      → IsReady p
  unfolding reset
  reset-cases (inl e) p made h = ground (arith, rw (made, reset) at h)
  reset-cases (inr m) p made h = raw_cases clusters.loaded (rw (made, reset) at h)
    where
      raw_cases : (loaded : String ⊎ Kubeconfig) → with_raw clusters loaded m ≡ inr p → IsReady p
      raw_cases (inl e) k = ground (arith, k)
      raw_cases (inr raw) k = subst IsReady (cc k) (managers_of-IsReady raw m)

  pub reset-IsReady : (p : ContextProvider M) → reset clusters ≡ inr p → IsReady p
  reset-IsReady p h = reset-cases (new_kubeconfig_manager clusters "") p refl h

  -- What a call gives: it does not dereference nil, the provider stays ready, the default context keeps
  -- its manager, a manager that is there is the answer and nothing changes, an answer is remembered, and
  -- the managers of the other contexts are left alone.
  abbrev pub Answers :
      String → ContextProvider M → Option ((ProviderError ⊎ M) × ContextProvider M) → Type 0
  Answers context p r =
      (answer : ProviderError ⊎ M) × (p' : ContextProvider M) × (r ≡ some (answer, p'))
      × IsReady p'
      × (p'.default_context ≡ p.default_context)
      × (lookup p.default_context p'.managers ≡ lookup p.default_context p.managers)
      × ((m : M) → found (lookup context p.managers) ≡ some m → (answer ≡ inr m) × (p' ≡ p))
      × ((m : M) → answer ≡ inr m → found (lookup context p'.managers) ≡ some m)
      × ((other : String)
          → (context == other) ≡ false
          → lookup other p'.managers ≡ lookup other p.managers)

  kept_Answers :
      (context : String) (p : ContextProvider M) (m : M)
      → IsReady p
      → found (lookup context p.managers) ≡ some m
      → Answers context p (some (inr m, p))
  kept_Answers context p m ready there = (
    inr m,
    p,
    refl,
    ready,
    refl,
    refl,
    (λ m' e. (cc (there, e), refl)),
    (λ m' e. there ∙ ground (arith, e)),
    λ other e. refl,
  )

  make_manager-cases :
      (context : String) (p : ContextProvider M) (answer : ProviderError ⊎ M)
      → IsReady p
      → found (lookup context p.managers) ≡ none
      → Answers context p (some (store_manager clusters context answer p))
  make_manager-cases context p (inl e) ready missing = (
    inl e,
    p,
    refl,
    ready,
    refl,
    refl,
    (λ m e'. ground (arith, missing, e')),
    (λ m e'. ground (arith, e')),
    λ other e'. refl,
  )
  make_manager-cases context p (inr m) ready missing =
      let stored : ContextProvider M = record p { managers = insert context (some m) p.managers } in
      (
        inr m,
        stored,
        refl,
        record {
          manager = ready.manager;
          there = stays (Bool-cases (context == p.default_context));
        },
        refl,
        stays (Bool-cases (context == p.default_context)) ∙ sym ready.there,
        (λ m' e. ground (arith, missing, e)),
        (λ m' e. ap found (lookup-insert context context (some m) p.managers) ∙ same m' e),
        λ other e. lookup-insert context other (some m) p.managers ∙ rw e,
      )
    where
      same :
          (m' : M)
          → ◌≡◌ {A = ProviderError ⊎ M} (inr m) (inr m')
          → found (if context == context then some (some m) else lookup context p.managers)
            ≡ some m'
      same m' e = rw (eq_refl context) (ground (arith, e))

      stays :
          ((context == p.default_context) ≡ true) ⊎ ((context == p.default_context) ≡ false)
          → lookup p.default_context (insert context (some m) p.managers)
            ≡ some (some ready.manager)
      stays (inl e) =
          let here : found (lookup context p.managers) ≡ some ready.manager =
            rw ((eq_iff context p.default_context).0 e) (ap found ready.there) in
          ground (arith, missing, here)
      stays (inr e) = lookup-insert context p.default_context (some m) p.managers ∙ rw e ready.there

  make_manager-Answers :
      (context : String) (p : ContextProvider M)
      → IsReady p
      → Answers context p (make_manager clusters context p)
  unfolding make_manager
  make_manager-Answers context p ready = by_manager (found (lookup context p.managers)) refl
    where
      by_manager :
          (m : Option M)
          → found (lookup context p.managers) ≡ m
          → Answers context p (make_manager clusters context p)
      by_manager (some m) e =
          let kept : make_manager clusters context p ≡ some (inr m, p) =
            rw (e, make_manager) refl in
          subst (Answers context p) (sym kept) (kept_Answers context p m ready e)
      by_manager none e =
          let base : found (lookup p.default_context p.managers) ≡ some ready.manager =
            ap found ready.there in
          let answer = new_kubeconfig_manager clusters context in
          let made : make_manager clusters context p
              ≡ some (store_manager clusters context answer p) =
            rw (e, base, make_manager) refl in
          subst (Answers context p) (sym made) (make_manager-cases context p answer ready e)

  -- A call for the manager of a context, whatever other calls have made of the provider before the lock
  -- is taken, if the default context's manager is there before and after them: the call does not
  -- dereference nil, and against the provider that it works on, the default context stays and keeps
  -- its manager, a context that has a manager is answered that very manager and nothing changes, a
  -- manager that it answers is the one the context has from then on, and the entries of the other
  -- contexts are left alone.
  pub manager_for_context-Answers :
      (context : String) (p : ContextProvider M) (others : ContextProvider M → ContextProvider M)
      → IsReady p
      → IsReady (others p)
      → Answers context
          (if is_some (found (lookup context p.managers)) then p else others p)
          (manager_for_context clusters context p others)
  unfolding manager_for_context
  manager_for_context-Answers context p others ready ready' =
      by_manager (found (lookup context p.managers)) refl
    where
      by_manager :
          (m : Option M)
          → found (lookup context p.managers) ≡ m
          → Answers context
              (if is_some (found (lookup context p.managers)) then p else others p)
              (manager_for_context clusters context p others)
      by_manager (some m) e =
          let kept : manager_for_context clusters context p others ≡ some (inr m, p) =
            rw (e, manager_for_context) refl in
          let seen : (if is_some (found (lookup context p.managers)) then p else others p) ≡ p =
            rw e refl in
          subst (λ q. Answers context q (manager_for_context clusters context p others)) (sym seen)
            (subst (Answers context p) (sym kept) (kept_Answers context p m ready e))
      by_manager none e =
          let made : manager_for_context clusters context p others
              ≡ make_manager clusters context (others p) =
            rw (e, manager_for_context) refl in
          let seen : (if is_some (found (lookup context p.managers)) then p else others p)
              ≡ others p =
            rw e refl in
          subst (λ q. Answers context q (manager_for_context clusters context p others)) (sym seen)
            (subst (Answers context (others p)) (sym made)
              (make_manager-Answers context (others p) ready'))
