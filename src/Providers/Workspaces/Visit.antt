-- ===== src/Providers/Workspaces/Visit.antt =====
-- One item of a listing on the way down the tree (DiscoverWorkspacesRecursive of
-- pkg/kcp/workspace.go).
use kube_mcp_server.Base.{
  String, true, false, ◌⊎◌, inl, inr, Option, some, List, ◌∷◌, ◌==◌, ◌≡◌, refl, sym, subst, arith,
  contains, eq_refl, Bool-cases,
}
use kube_mcp_server.Providers.Workspaces.{full_path, visit_child}
use kube_mcp_server.Providers.Workspaces.Tree.{
  cases_contains, IsChild, Reach, below, Discovers, Explores, unchanged-Discovers,
}

module _ (listing : String → Option (List String)) where
  pub visit_child-Discovers :
      (down : String → List String → Option (List String)) (parent name : String)
      (before : List String)
      → ((name == "") ≡ false → IsChild listing parent (full_path parent name))
      → ((name == "") ≡ false → Explores listing down (full_path parent name))
      → (after : List String) × (visit_child down parent name before ≡ some after)
        × Discovers listing parent
            (λ x. ((name == "") ≡ false) × (x ≡ full_path parent name))
            before
            after
  visit_child-Discovers down parent name before child explores = by_name (Bool-cases (name == ""))
    where
      Goal : Type 0
      Goal =
          (after : List String) × (visit_child down parent name before ≡ some after)
          × Discovers listing parent (λ x. ((name == "") ≡ false) × (x ≡ full_path parent name))
              before after

      entered :
          (name == "") ≡ false
          → contains before (full_path parent name) ≡ false
          → (after : List String)
          → down (full_path parent name) (full_path parent name ∷ before) ≡ some after
          → Discovers listing
              (full_path parent name)
              (IsChild listing (full_path parent name))
              (full_path parent name ∷ before)
              after
          → Goal
      entered named fresh after runs d =
          let marked : (root : String)
              → Reach listing root parent
              → ((y : String) → contains before y ≡ true → Reach listing root y)
              → (y : String) → contains (full_path parent name ∷ before) y ≡ true
              → Reach listing root y =
            λ root r all y k. elim (cases_contains (full_path parent name) before y k) [
              | inl e ↦ subst (Reach listing root) e (below r (child named))
              | inr old ↦ all y old
            ] in
          (
            after,
            ground (arith, named, fresh, runs),
            record {
              keeps = λ x h. d.keeps x (ground (arith, h));
              adds = λ x h.
                  rw h.1
                    (d.keeps (full_path parent name) (rw (eq_refl (full_path parent name)) refl));
              closed = λ x h. elim (d.closed x h) [
                | inr children ↦ inr children
                | inl old ↦ elim (cases_contains (full_path parent name) before x old) [
                  | inl e ↦ inr (λ c k. d.adds c (subst (λ y. IsChild listing y c) (sym e) k))
                  | inr older ↦ inl older
                ]
              ];
              sound = λ root r all x h.
                  d.sound root (below r (child named)) (λ y k. marked root r all y k) x h;
            },
          )

      by_path :
          (name == "") ≡ false
          → (contains before (full_path parent name) ≡ true)
            ⊎ (contains before (full_path parent name) ≡ false)
          → Goal
      by_path named (inl known) = (
        before,
        ground (arith, named, known),
        unchanged-Discovers listing _ _ before (λ x h. rw h.1 known),
      )
      by_path named (inr fresh) =
          let result = explores named (full_path parent name ∷ before) in
          entered named fresh result.0 result.1 result.2

      by_name : ((name == "") ≡ true) ⊎ ((name == "") ≡ false) → Goal
      by_name (inl e) = (
        before,
        ground (arith, e),
        unchanged-Discovers listing _ _ before (λ x h. ground (arith, e, h.0)),
      )
      by_name (inr e) = by_path e (Bool-cases (contains before (full_path parent name)))
