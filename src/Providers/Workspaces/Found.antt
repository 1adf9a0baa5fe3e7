-- ===== src/Providers/Workspaces/Found.antt =====
-- What the discovery of workspaces finds (pkg/kcp/workspace.go).
use kube_mcp_server.Base.{
  ℕ, zero, suc, String, true, false, inl, inr, Option, none, some, List, [], ◌∷◌, ◌==◌, ◌≡◌, ◌↔◌,
  refl, sym, subst, arith, contains, eq_refl,
}
use kube_mcp_server.Providers.Workspaces.{
  full_path, visit_child, visit_children, discover_workspaces_recursive, discover_all_workspaces,
}
use kube_mcp_server.Providers.Workspaces.Tree.{
  IsListed, cases_contains, IsListed-later, IsChild, Reach, here, below, IsWithin, Discovers,
  Explores, unchanged-Discovers, Discovers-then,
}
use kube_mcp_server.Providers.Workspaces.Visit.{visit_child-Discovers}

module _ (listing : String → Option (List String)) where
  visit_children-cons :
      (down : String → List String → Option (List String)) (parent name : String)
      (names before mid after : List String)
      → visit_child down parent name before ≡ some mid
      → visit_children down parent names mid ≡ some after
      → visit_children down parent (name ∷ names) before ≡ some after
  visit_children-cons down parent name names before mid after e k = rw (e, visit_children) k

  visit_children-Discovers :
      (down : String → List String → Option (List String)) (parent : String)
      (names before : List String)
      → ((child : String) → IsListed names parent child → IsChild listing parent child)
      → ((child : String) → IsListed names parent child → Explores listing down child)
      → (after : List String) × (visit_children down parent names before ≡ some after)
        × Discovers listing parent (IsListed names parent) before after
  visit_children-Discovers down parent [] before child explores =
      (before, refl, unchanged-Discovers listing _ _ before (λ x l. ground (arith, l.in_list)))
  visit_children-Discovers down parent (name ∷ names) before child explores =
      let first =
        visit_child-Discovers listing down parent name before (λ named. child _ (this named))
          (λ named. explores _ (this named)) in
      let rest =
        visit_children-Discovers down parent names first.0
          (λ c l. child c (IsListed-later name names parent c l))
          (λ c l. explores c (IsListed-later name names parent c l)) in
      (
        rest.0,
        visit_children-cons down parent name names before first.0 rest.0 first.1 rest.1,
        Discovers-then listing parent name names before first.0 rest.0 first.2 rest.2,
      )
    where
      this : (name == "") ≡ false → IsListed (name ∷ names) parent (full_path parent name)
      this named = record {
        name = name;
        in_list = rw (eq_refl name) refl;
        named = named;
        path = refl;
      }

  discover_by_listing :
      (depth : ℕ) (workspace : String) (before : List String)
      → ((c : String)
          → IsChild listing workspace c
          → Explores listing (discover_workspaces_recursive listing depth) c)
      → (l : Option (List String)) → listing workspace ≡ l
      → (after : List String) × (discover_workspaces_recursive listing (suc depth) workspace before
          ≡ some after)
        × Discovers listing workspace (IsChild listing workspace) before after
  unfolding discover_workspaces_recursive
  discover_by_listing depth workspace before deeper none e = (
    before,
    rw (e, discover_workspaces_recursive) refl,
    unchanged-Discovers listing _ _ before (λ x l. ground (arith, e, l.1)),
  )
  discover_by_listing depth workspace before deeper (some names) e =
      let inner =
        visit_children-Discovers (discover_workspaces_recursive listing depth) workspace names
          before (λ c l. (names, e, l)) (λ c l. deeper c (names, e, l)) in
      let d = inner.2 in
      (
        inner.0,
        rw (e, discover_workspaces_recursive) inner.1,
        record {
          keeps = d.keeps;
          adds =
              λ x l. d.adds x (subst (λ ns. IsListed ns workspace x) (ground (arith, e, l.1)) l.2);
          closed = d.closed;
          sound = d.sound;
        },
      )

  discover-Explores :
      (depth : ℕ) (workspace : String)
      → IsWithin listing depth workspace
      → Explores listing (discover_workspaces_recursive listing depth) workspace
  discover-Explores zero workspace within before = elim within [ ]
  discover-Explores (suc depth) workspace within before =
      discover_by_listing depth workspace before (λ c k. discover-Explores depth c (within c k))
        (listing workspace) refl

  reached :
      (root : String) (after : List String)
      → Discovers listing root (IsChild listing root) (root ∷ []) after
      → (x : String) → Reach listing root x
      → contains after x ≡ true
  reached root after d x here = d.keeps root (rw (eq_refl root) refl)
  reached root after d x (below {parent = p} {child = c} r k) =
      elim (d.closed p (reached root after d p r)) [
        | inr children ↦ children c k
        | inl old ↦ elim (cases_contains root [] p old) [
          | inl e ↦ d.adds c (subst (λ y. IsChild listing y c) (sym e) k)
          | inr none_ ↦ ground (arith, none_)
        ]
      ]

  -- The discovery ends on every tree of workspaces whose listings end within a depth, if it may go as
  -- deep as that, and what it gives are exactly the workspaces that the listings reach from the root: a
  -- workspace that is found on two ways or whose listing fails included.
  pub discover_all_workspaces-Reach :
      (depth : ℕ) (root : String)
      → IsWithin listing depth root
      → (found : List String) × (discover_all_workspaces listing depth root ≡ some found)
        × ((workspace : String) → (contains found workspace ≡ true) ↔ Reach listing root workspace)
  unfolding discover_all_workspaces
  discover_all_workspaces-Reach depth root within =
      let result = discover-Explores depth root within (root ∷ []) in
      let d = result.2 in
      (
        result.0,
        result.1,
        λ x. (
          d.sound root here
              (λ y h. elim (cases_contains root [] y h) [
                | inl e ↦ subst (Reach listing root) e here
                | inr none_ ↦ ground (arith, none_)
              ])
              x,
          reached root result.0 d x,
        ),
      )
