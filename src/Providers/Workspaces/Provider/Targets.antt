-- ===== src/Providers/Workspaces/Provider/Targets.antt =====
-- The workspaces that the kcp provider names as targets (pkg/kcp/provider.go).
use kube_mcp_server.Base.{
  String, true, false, ◌⊎◌, inl, inr, Option, none, some, List, [], ◌∷◌, ◌==◌, ◌≡◌, ◌↔◌, ◌||◌, refl,
  sym, ap, ◌∙◌, subst, arith, if◌then◌else◌, is_some, contains, eq_iff, eq_refl, Bool-cases,
}
use kube_mcp_server.Base.Assoc.{Assoc, lookup, insert, lookup-insert}
use kube_mcp_server.Providers.Workspaces.{parse_server_url, discover_all_workspaces}
use kube_mcp_server.Providers.Workspaces.Tree.{Reach, here, IsWithin}
use kube_mcp_server.Providers.Workspaces.Found.{discover_all_workspaces-Reach}
use kube_mcp_server.Providers.Workspaces.Provider.{
  KcpError, RawConfig, KcpProvider, Surroundings, current_server, nil_managers, with_managers,
  finish, reset_workspaces, at_server, reset_at, reset_kcp,
}

module _ {M : Type 0} where
  nil_managers-lookup :
      (workspaces : List String) (managers : Assoc (Option M)) (x : String)
      → is_some (lookup x (nil_managers workspaces managers))
        ≡ (contains workspaces x || is_some (lookup x managers))
  nil_managers-lookup [] managers x = refl
  nil_managers-lookup (w ∷ workspaces) managers x =
      nil_managers-lookup workspaces (insert w none managers) x
      ∙ ground (arith, lookup-insert w x none managers)

  -- What a reset that ends without an error makes of the targets: exactly the reachable ones.
  with_managers-targets :
      (workspaces : List String) (base : M) (p : KcpProvider M) (x : String)
      → contains workspaces p.default_workspace ≡ true
      → is_some (lookup x (with_managers workspaces base p).managers) ≡ contains workspaces x
  unfolding lookup
  with_managers-targets workspaces base p x h =
      ap is_some (lookup-insert p.default_workspace x (some base) (nil_managers workspaces []))
      ∙ by_name (Bool-cases (p.default_workspace == x))
    where
      by_name :
          ((p.default_workspace == x) ≡ true) ⊎ ((p.default_workspace == x) ≡ false)
          → is_some (
              if p.default_workspace == x
              then some (some base)
              else lookup x (nil_managers workspaces []))
            ≡ contains workspaces x
      by_name (inl e) =
          let same : contains workspaces x ≡ true =
            subst (λ y. contains workspaces y ≡ true) ((eq_iff p.default_workspace x).0 e) h in
          rw (e, same) refl
      by_name (inr e) = rw e (nil_managers-lookup workspaces [] x ∙ ground arith)

  -- What the managers of a reset without an error are made of.
  record IsReset (env : Surroundings M) (p : KcpProvider M) : Type 0 where
    workspaces : List String
    base : M
    before : KcpProvider M
    discovered :
        discover_all_workspaces env.listing env.depth before.default_workspace ≡ some workspaces
    made : with_managers workspaces base before ≡ p

  finish-IsReset :
      (env : Surroundings M) (base : M) (p p' : KcpProvider M)
      → finish env base p ≡ (none, p')
      → p ≡ p'
  finish-IsReset env base p p' h = by_derived (env.derived base) refl
    where
      by_derived : (d : Option String) → env.derived base ≡ d → p ≡ p'
      by_derived none e = ap (λ r. r.1) (rw (e, finish) at h)
      by_derived (some x) e = ground (arith, e, ap (λ r. r.0) (rw (e, finish) at h))

  reset_workspaces-IsReset :
      (env : Surroundings M) (p p' : KcpProvider M) (rest : Option String) (m : String ⊎ M)
      (found : Option (List String))
      → env.rest_config ≡ rest
      → env.base_manager ≡ m
      → discover_all_workspaces env.listing env.depth p.default_workspace ≡ found
      → reset_workspaces env p ≡ some (none, p')
      → IsReset env p'
  reset_workspaces-IsReset env p p' (some x) m found e f g h =
      ground (arith, rw (e, reset_workspaces) at h)
  reset_workspaces-IsReset env p p' none (inl x) found e f g h =
      ground (arith, rw (e, f, reset_workspaces) at h)
  reset_workspaces-IsReset env p p' none (inr base) none e f g h =
      ground (arith, rw (e, f, g, reset_workspaces) at h)
  reset_workspaces-IsReset env p p' none (inr base) (some workspaces) e f g h = record {
    workspaces = workspaces;
    base = base;
    before = p;
    discovered = g;
    made =
        finish-IsReset env base (with_managers workspaces base p) p'
          (cc (rw (e, f, g, reset_workspaces) at h));
  }

  reset_kcp-IsReset :
      (env : Surroundings M) (p p' : KcpProvider M) (raw : String ⊎ RawConfig)
      → env.raw ≡ raw
      → reset_kcp env p ≡ some (none, p')
      → IsReset env p'
  unfolding reset_kcp
  reset_kcp-IsReset env p p' (inl x) e h = ground (arith, rw (e, reset_kcp) at h)
  reset_kcp-IsReset env p p' (inr raw) e h = by_server (current_server raw) refl
    where
      by_workspace :
          (server : String)
          → (((parse_server_url server).1 == "") ≡ true)
            ⊎ (((parse_server_url server).1 == "") ≡ false)
          → reset_at env server p ≡ some (none, p')
          → IsReset env p'
      by_workspace server (inl k) j = ground (arith, rw (k, reset_at) at j)
      by_workspace server (inr k) j =
          reset_workspaces-IsReset env (at_server server p) p' env.rest_config env.base_manager _
            refl refl refl (rw (k, reset_at) at j)

      by_server : (c : KcpError ⊎ String) → current_server raw ≡ c → IsReset env p'
      by_server (inl x) k = ground (arith, rw (e, k, reset_kcp) at h)
      by_server (inr server) k =
          by_workspace server (Bool-cases ((parse_server_url server).1 == ""))
            (rw (e, k, reset_kcp) at h)

  abbrev pub HasTargets : Surroundings M → KcpProvider M → Type 0
  HasTargets env p =
      ((base : M) × (lookup p.default_workspace p.managers ≡ some (some base)))
      × ((workspace : String)
          → (is_some (lookup workspace p.managers) ≡ true)
            ↔ Reach env.listing p.default_workspace workspace)

  with_managers-HasTargets :
      (env : Surroundings M) (workspaces : List String) (base : M) (p : KcpProvider M)
      → IsWithin env.listing env.depth p.default_workspace
      → discover_all_workspaces env.listing env.depth p.default_workspace ≡ some workspaces
      → HasTargets env (with_managers workspaces base p)
  with_managers-HasTargets env workspaces base p within discovered =
      let reach = discover_all_workspaces-Reach env.listing env.depth p.default_workspace within in
      let same : reach.0 ≡ workspaces = (let e = sym reach.1 ∙ discovered in cc) in
      let exact : (x : String)
          → (contains workspaces x ≡ true) ↔ Reach env.listing p.default_workspace x =
        subst (λ w. (x : String) → (contains w x ≡ true) ↔ Reach env.listing p.default_workspace x)
          same reach.2 in
      let targets = λ (x : String).
        with_managers-targets workspaces base p x ((exact p.default_workspace).1 here) in
      (
        (
          base,
          lookup-insert p.default_workspace p.default_workspace (some base)
                (nil_managers workspaces [])
              ∙ rw (eq_refl p.default_workspace) refl,
        ),
        λ x. ((λ h. (exact x).0 (sym (targets x) ∙ h)), λ r. targets x ∙ (exact x).1 r),
      )

  -- The targets of the provider behind a reset without an error, if the listings end within the depth:
  -- the default workspace has a manager, and the targets are exactly the workspaces that the listings
  -- reach from it.
  pub reset_kcp-targets :
      (env : Surroundings M) (p p' : KcpProvider M)
      → IsWithin env.listing env.depth p'.default_workspace
      → reset_kcp env p ≡ some (none, p')
      → HasTargets env p'
  reset_kcp-targets env p p' within h =
      let r = reset_kcp-IsReset env p p' env.raw refl h in
      subst (HasTargets env) r.made (
        with_managers-HasTargets env r.workspaces r.base r.before
          (subst (λ q. IsWithin env.listing env.depth q.default_workspace) (sym r.made) within)
          r.discovered)
