-- ===== src/Kiali/Ranking.antt =====
-- Ranking the unhealthy entities: `sortUnhealthyByImpact` of pkg/kiali/health_calculation.go. A pass
-- of the inner loop carries the entity at position i along the later positions and exchanges it
-- with each that has a higher error rate.
pub mod Ranked
use kube_mcp_server.Base.{ℕ, zero, suc, Bool, true, false, List, [], ◌∷◌, if◌then◌else◌, length}
use kube_mcp_server.Kiali.{Floats, UnhealthyEntity}

module _ {F : Type 0} (fl : Floats F) where
  -- The entity that ends at position i, and the later positions.
  unfoldable pub carry :
      UnhealthyEntity F → List (UnhealthyEntity F) → UnhealthyEntity F × List (UnhealthyEntity F)
  carry x [] = (x, [])
  carry x (y ∷ ys) =
      let exchanged = carry y ys in
      let kept = carry x ys in
      if fl.lt x.error_rate y.error_rate
      then (exchanged.0, x ∷ exchanged.1)
      else (kept.0, y ∷ kept.1)

  -- The outer loop; the number of passes left is that of the positions.
  unfoldable pub passes : ℕ → List (UnhealthyEntity F) → List (UnhealthyEntity F)
  unfolding carry
  passes zero xs = xs
  passes (suc n) [] = []
  passes (suc n) (x ∷ xs) = (carry x xs).0 ∷ passes n (carry x xs).1

  unfoldable pub sort_unhealthy_by_impact : List (UnhealthyEntity F) → List (UnhealthyEntity F)
  unfolding passes
  sort_unhealthy_by_impact xs = passes (length xs) xs
