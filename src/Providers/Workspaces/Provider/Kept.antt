-- ===== src/Providers/Workspaces/Provider/Kept.antt =====
-- A call for the manager of a workspace leaves the targets as they are (pkg/kcp/provider.go).
use kube_mcp_server.Base.{
  String, true, false, ◌⊎◌, inl, inr, Option, none, some, ◌==◌, ◌≡◌, refl, ap, ◌∙◌, subst, arith,
  if◌then◌else◌, is_some, eq_iff, Bool-cases,
}
use kube_mcp_server.Base.Assoc.{lookup, lookup-insert}
use kube_mcp_server.Providers.Workspaces.{construct_workspace_url}
use kube_mcp_server.Providers.Workspaces.Provider.{
  KcpError, RawConfig, KcpProvider, Surroundings, manager_for_workspace, store_workspace_manager,
  make_workspace_manager, find_or_create_workspace_context, workspace_not_found, load_failed,
}

module _ {M : Type 0} where
  store-targets :
      (workspace : String) (answer : String ⊎ M) (p : KcpProvider M) (m : Option M) (x : String)
      → lookup workspace p.managers ≡ some m
      → is_some (lookup x (store_workspace_manager workspace answer p).1.managers)
        ≡ is_some (lookup x p.managers)
  store-targets workspace (inl e) p m x h = refl
  store-targets workspace (inr made) p m x h =
      ap is_some (lookup-insert workspace x (some made) p.managers)
      ∙ by_name (Bool-cases (workspace == x))
    where
      by_name :
          ((workspace == x) ≡ true) ⊎ ((workspace == x) ≡ false)
          → is_some (if workspace == x then some (some made) else lookup x p.managers)
            ≡ is_some (lookup x p.managers)
      by_name (inl e) =
          let there : lookup x p.managers ≡ some m =
            subst (λ y. lookup y p.managers ≡ some m) ((eq_iff workspace x).0 e) h in
          rw (e, there) refl
      by_name (inr e) = rw e refl

  abbrev pub KeepsTargets : String → KcpProvider M → (KcpError ⊎ M) × KcpProvider M → Type 0
  KeepsTargets workspace p (answer, p') =
      ((x : String) → is_some (lookup x p'.managers) ≡ is_some (lookup x p.managers))
      × (p'.default_workspace ≡ p.default_workspace)
      × (lookup workspace p.managers ≡ none → answer ≡ inl (workspace_not_found workspace))

  store-KeepsTargets :
      (workspace : String) (answer : String ⊎ M) (p : KcpProvider M)
      → lookup workspace p.managers ≡ some none
      → KeepsTargets workspace p (store_workspace_manager workspace answer p)
  store-KeepsTargets workspace (inl e) p h = ((λ x. refl), refl, λ k. ground (arith, h, k))
  store-KeepsTargets workspace (inr m) p h =
      ((λ x. store-targets workspace (inr m) p none x h), refl, λ k. ground (arith, h, k))

  make-KeepsTargets :
      (env : Surroundings M) (workspace : String) (p : KcpProvider M)
      (result : (KcpError ⊎ M) × KcpProvider M) (raw : String ⊎ RawConfig)
      → env.raw ≡ raw
      → lookup workspace p.managers ≡ some none
      → make_workspace_manager env workspace p ≡ some result
      → KeepsTargets workspace p result
  make-KeepsTargets env workspace p result (inl e) k h r =
      let same : ◌≡◌ {A = (KcpError ⊎ M) × KcpProvider M} (inl (load_failed e), p) result =
        let made = rw (k, make_workspace_manager) at r in cc in
      subst (KeepsTargets workspace p) same ((λ x. refl), refl, λ j. ground (arith, h, j))
  make-KeepsTargets env workspace p result (inr raw) k h r =
      by_context (find_or_create_workspace_context p.base_server_url raw workspace) refl
    where
      by_context :
          (c : Option (String × RawConfig))
          → find_or_create_workspace_context p.base_server_url raw workspace ≡ c
          → KeepsTargets workspace p result
      by_context none e = ground (arith, rw (k, e, make_workspace_manager) at r)
      by_context (some (context, config)) e =
          let answer =
            env.new_manager (construct_workspace_url p.base_server_url workspace) context in
          let same : store_workspace_manager workspace answer p ≡ result =
            let made = rw (k, e, make_workspace_manager) at r in cc in
          subst (KeepsTargets workspace p) same (store-KeepsTargets workspace answer p h)

  -- A call for a workspace's manager never changes what the targets are, whatever it answers, nor the
  -- default workspace, and a workspace that is no target is refused.
  pub manager_for_workspace-KeepsTargets :
      (env : Surroundings M) (workspace : String) (p p' : KcpProvider M) (answer : KcpError ⊎ M)
      → manager_for_workspace env workspace p ≡ some (answer, p')
      → KeepsTargets workspace p (answer, p')
  unfolding manager_for_workspace
  manager_for_workspace-KeepsTargets env workspace p p' answer h =
      by_manager (lookup workspace p.managers) refl
    where
      by_manager :
          (m : Option (Option M))
          → lookup workspace p.managers ≡ m
          → KeepsTargets workspace p (answer, p')
      by_manager none e =
          let same : ◌≡◌ {A = (KcpError ⊎ M) × KcpProvider M}
              (inl (workspace_not_found workspace), p) (answer, p') =
            let made = rw (e, manager_for_workspace) at h in cc in
          subst (KeepsTargets workspace p) same ((λ x. refl), refl, λ j. refl)
      by_manager (some (some m)) e =
          let same : ◌≡◌ {A = (KcpError ⊎ M) × KcpProvider M} (inr m, p) (answer, p') =
            let made = rw (e, manager_for_workspace) at h in cc in
          subst (KeepsTargets workspace p) same ((λ x. refl), refl, λ j. ground (arith, e, j))
      by_manager (some none) e =
          make-KeepsTargets env workspace p (answer, p') env.raw refl e
            (rw (e, manager_for_workspace) at h)
