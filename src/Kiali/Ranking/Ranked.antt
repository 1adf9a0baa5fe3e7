-- ===== src/Kiali/Ranking/Ranked.antt =====
-- The ranking is a permutation with the highest error rate first
-- (pkg/kiali/health_calculation.go).
use mathlib.Core.List.Permᴰ
use mathlib.Core.List.{Permᴰ}
use kube_mcp_server.Base.{
  ℕ, zero, suc, ◌≡◌, refl, inl, inr, true, false, List, [], ◌∷◌, arith, ◌≤◌, length, All,
  Bool-cases,
}
use kube_mcp_server.Kiali.{Floats, UnhealthyEntity}
use kube_mcp_server.Kiali.Ranking.{carry, passes, sort_unhealthy_by_impact}

-- The order of floats without NaN.
pub record OrderLaws {F : Type 0} (fl : Floats F) : Type 0 where
  pub lt-asym : (x y : F) → fl.lt x y ≡ true → fl.lt y x ≡ false
  pub not_lt-trans : (x y z : F) → fl.lt x y ≡ false → fl.lt y z ≡ false → fl.lt x z ≡ false

-- Each error rate is not lower than any later one.
abbrev pub IsRanked : {F : Type 0} → Floats F → List (UnhealthyEntity F) → Type 0
IsRanked fl [] = Unit
IsRanked fl (x ∷ xs) = All (λ y. fl.lt x.error_rate y.error_rate ≡ false) xs × IsRanked fl xs

module _ {F : Type 0} (fl : Floats F) where
  carry-All :
      (P : UnhealthyEntity F → Type 0) (x : UnhealthyEntity F) (ys : List (UnhealthyEntity F))
      → P x
      → All P ys
      → P (carry fl x ys).0 × All P (carry fl x ys).1
  unfolding carry
  carry-All P x [] px all = (px, record {})
  carry-All P x (y ∷ ys) px (py, all) = elim (Bool-cases (fl.lt x.error_rate y.error_rate)) [
    | inl higher ↦ let (top, rest) = carry-All P y ys py all in rw (higher, carry) (top, (px, rest))
    | inr lower ↦ let (top, rest) = carry-All P x ys px all in rw (lower, carry) (top, (py, rest))
  ]

  passes-All :
      (P : UnhealthyEntity F → Type 0) (n : ℕ) (xs : List (UnhealthyEntity F))
      → All P xs
      → All P (passes fl n xs)
  unfolding passes
  passes-All P zero xs all = all
  passes-All P (suc n) [] all = record {}
  passes-All P (suc n) (x ∷ xs) (px, all) =
      let (top, rest) = carry-All P x xs px all in (top, passes-All P n (carry fl x xs).1 rest)

  pub carry-length :
      (x : UnhealthyEntity F) (ys : List (UnhealthyEntity F)) → length (carry fl x ys).1 ≡ length ys
  unfolding carry
  carry-length x [] = refl
  carry-length x (y ∷ ys) = ground (arith, carry-length x ys, carry-length y ys)

  carry-Permᴰ :
      (x : UnhealthyEntity F) (ys : List (UnhealthyEntity F))
      → Permᴰ (x ∷ ys) ((carry fl x ys).0 ∷ (carry fl x ys).1)
  unfolding carry
  carry-Permᴰ x [] = Permᴰ.refl (x ∷ [])
  carry-Permᴰ x (y ∷ ys) = elim (Bool-cases (fl.lt x.error_rate y.error_rate)) [
    | inl higher ↦
        rw (higher, carry) (Permᴰ.trans (Permᴰ.cons refl (carry-Permᴰ y ys)) (Permᴰ.swap refl refl))
    | inr lower ↦
        rw (lower, carry)
          (Permᴰ.trans (Permᴰ.swap refl refl)
            (Permᴰ.trans (Permᴰ.cons refl (carry-Permᴰ x ys)) (Permᴰ.swap refl refl)))
  ]

  carry-max :
      (laws : OrderLaws fl) (x : UnhealthyEntity F) (ys : List (UnhealthyEntity F))
      → (fl.lt (carry fl x ys).0.error_rate x.error_rate ≡ false)
        × All (λ z. fl.lt (carry fl x ys).0.error_rate z.error_rate ≡ false) (carry fl x ys).1
  unfolding carry
  carry-max laws x [] = (ground (arith, laws.lt-asym x.error_rate x.error_rate), record {})
  carry-max laws x (y ∷ ys) = elim (Bool-cases (fl.lt x.error_rate y.error_rate)) [
    | inl higher ↦
        let (top, rest) = carry-max laws y ys in
        let over =
          laws.not_lt-trans (carry fl y ys).0.error_rate y.error_rate x.error_rate top
            (laws.lt-asym x.error_rate y.error_rate higher) in
        rw (higher, carry) (over, (over, rest))
    | inr lower ↦
        let (top, rest) = carry-max laws x ys in
        let over =
          laws.not_lt-trans (carry fl x ys).0.error_rate x.error_rate y.error_rate top lower in
        rw (lower, carry) (top, (over, rest))
  ]

  passes-Permᴰ : (n : ℕ) (xs : List (UnhealthyEntity F)) → Permᴰ xs (passes fl n xs)
  unfolding passes
  passes-Permᴰ zero xs = Permᴰ.refl xs
  passes-Permᴰ (suc n) [] = Permᴰ.nil
  passes-Permᴰ (suc n) (x ∷ xs) =
      Permᴰ.trans (carry-Permᴰ x xs) (Permᴰ.cons refl (passes-Permᴰ n (carry fl x xs).1))

  passes-IsRanked :
      (laws : OrderLaws fl) (n : ℕ) (xs : List (UnhealthyEntity F))
      → length xs ≤ n
      → IsRanked fl (passes fl n xs)
  unfolding passes
  passes-IsRanked laws zero [] fits = record {}
  passes-IsRanked laws zero (x ∷ xs) fits = absurd (omega arith)
  passes-IsRanked laws (suc n) [] fits = record {}
  passes-IsRanked laws (suc n) (x ∷ xs) fits = (
    passes-All (λ z. fl.lt (carry fl x xs).0.error_rate z.error_rate ≡ false) n (carry fl x xs).1
        (carry-max laws x xs).1,
    passes-IsRanked laws n (carry fl x xs).1 (ground (arith, carry-length x xs)),
  )

  -- The ranking of unhealthy entities is a permutation of them in which no entity has a lower error
  -- rate than a later one, if the floats that occur are ordered (none is NaN).
  pub sort_unhealthy_by_impact-IsRanked :
      (laws : OrderLaws fl) (xs : List (UnhealthyEntity F))
      → Permᴰ xs (sort_unhealthy_by_impact fl xs) × IsRanked fl (sort_unhealthy_by_impact fl xs)
  unfolding sort_unhealthy_by_impact
  sort_unhealthy_by_impact-IsRanked laws xs =
      (passes-Permᴰ (length xs) xs, passes-IsRanked laws (length xs) xs (omega arith))
