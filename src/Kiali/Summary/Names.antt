-- ===== src/Kiali/Summary/Names.antt =====
-- The namespaces that the summary of a mesh visits (`computeHealthSummary` of
-- pkg/kiali/health_calculation.go).
use kube_mcp_server.Base.{
  String, Bool, ◌≡◌, refl, subst, true, false, ◌||◌, ◌==◌, List, [], ◌∷◌, ◌++◌, map, arith, inl,
  inr, Bool-cases, contains, eq_iff,
}
use kube_mcp_server.Base.Assoc.{Assoc}
use kube_mcp_server.Kiali.{Floats, ClustersNamespaceHealth}
use kube_mcp_server.Kiali.Summary.{add_names}
use kube_mcp_server.Kiali.Summary.Mesh.{namespace_names}

-- No name is listed twice.
abbrev pub Distinct : List String → Type 0
Distinct [] = Unit
Distinct (x ∷ xs) = (contains xs x ≡ false) × Distinct xs

contains-snoc :
    (xs : List String) (x n : String) → contains (xs ++ (x ∷ [])) n ≡ (contains xs n || (x == n))
contains-snoc [] x n = ground arith
contains-snoc (y ∷ ys) x n = ground (arith, contains-snoc ys x n)

Distinct-snoc :
    (xs : List String) (x : String)
    → Distinct xs
    → contains xs x ≡ false
    → Distinct (xs ++ (x ∷ []))
Distinct-snoc [] x d new = (refl, record {})
Distinct-snoc (y ∷ ys) x d new = (
  ground (arith, contains-snoc ys x y, d.0, new, eq_iff x y, eq_iff y x),
  Distinct-snoc ys x d.1 (ground (arith, new)),
)

module _ {A : Type 0} where
  add_names-Distinct :
      (m : Assoc A) (names : List String) → Distinct names → Distinct (add_names m names)
  unfolding add_names
  add_names-Distinct [] names d = d
  add_names-Distinct ((n, x) ∷ m) names d = elim (Bool-cases (contains names n)) [
    | inl listed ↦ rw listed (add_names-Distinct m names d)
    | inr new ↦ rw new (add_names-Distinct m (names ++ (n ∷ [])) (Distinct-snoc names n d new))
  ]

  add_names-contains :
      (m : Assoc A) (names : List String) (k : String)
      → contains (add_names m names) k ≡ (contains names k || contains (map (λ e. e.0) m) k)
  unfolding add_names
  add_names-contains [] names k = ground arith
  add_names-contains ((n, x) ∷ m) names k = elim (Bool-cases (contains names n)) [
    | inl listed ↦ elim (Bool-cases (n == k)) [
      | inl same ↦
          let here : contains names k ≡ true =
            subst (λ z. contains names z ≡ true) ((eq_iff n k).0 same) listed in
          rw listed (ground (arith, add_names-contains m names k, here))
      | inr other ↦ rw listed (ground (arith, add_names-contains m names k, other))
    ]
    | inr new ↦
        rw new (ground (arith, add_names-contains m (names ++ (n ∷ [])) k, contains-snoc names n k))
  ]

module _ {F : Type 0} (fl : Floats F) where
  -- The keys of the three maps.
  abbrev pub is_named : (a s w : ClustersNamespaceHealth F) → String → Bool
  is_named a s w n =
      contains (map (λ e. e.0) a.app_health) n
      || contains (map (λ e. e.0) s.service_health) n
      || contains (map (λ e. e.0) w.workload_health) n

  pub namespace_names-Distinct :
      (a s w : ClustersNamespaceHealth F) → Distinct (namespace_names fl a s w)
  unfolding namespace_names
  namespace_names-Distinct a s w =
      let apps = add_names a.app_health [] in
      let both = add_names s.service_health apps in
      add_names-Distinct w.workload_health both
        (add_names-Distinct s.service_health apps (add_names-Distinct a.app_health [] (record {})))

  pub namespace_names-contains :
      (a s w : ClustersNamespaceHealth F) (n : String)
      → contains (namespace_names fl a s w) n ≡ is_named a s w n
  unfolding namespace_names
  namespace_names-contains a s w n =
      let apps = add_names a.app_health [] in
      let both = add_names s.service_health apps in
      ground (
        arith,
        add_names-contains w.workload_health both n,
        add_names-contains s.service_health apps n,
        add_names-contains a.app_health [] n,
      )
