-- ===== src/Base/Members.antt =====
-- Membership in filtered and appended lists, with the position kept (the library's `Memᴰ`).
use mathlib.Core.List.{Memᴰ}
use mathlib.Core.List.Memᴰ.{cases_cons}
use mathlib.Core.Path.{◌≡◌, refl, subst}
use mathlib.Core.Logic.{inl, inr, ◌↔◌}
use native.Mathlib.Omega.{arith}
use mathlib.Core.Bool.{Bool, true, false}
use mathlib.Core.List.{List, [], ◌∷◌}
use kube_mcp_server.Base.Tests.{Bool-cases}
use kube_mcp_server.Base.Lists.{keep, any}

module _ {ℓ} {A : Type ℓ} where
  mem_of_cons :
      (p : A → Bool) (x a : A) (xs : List A)
      → (Memᴰ a (keep p xs) → Memᴰ a xs × (p a ≡ true))
      → p x ≡ true
      → Memᴰ a (x ∷ keep p xs)
      → Memᴰ a (x ∷ xs) × (p a ≡ true)
  mem_of_cons p x a xs ih k (Memᴰ.head e) = (Memᴰ.head e, rw e k)
  mem_of_cons p x a xs ih k (Memᴰ.tail r) = let (later, ok) = ih r in (Memᴰ.tail later, ok)

  pub mem-of-keep :
      (p : A → Bool) (xs : List A) (a : A) → Memᴰ a (keep p xs) → Memᴰ a xs × (p a ≡ true)
  mem-of-keep p [] a m = elim m [ ]
  mem-of-keep p (x ∷ xs) a m = elim (Bool-cases (p x)) [
    | inl kept ↦ mem_of_cons p x a xs (mem-of-keep p xs a) kept (rw kept at m)
    | inr dropped ↦ let (later, ok) = mem-of-keep p xs a (rw dropped at m) in (Memᴰ.tail later, ok)
  ]

  pub mem-keep : (p : A → Bool) (xs : List A) (a : A) → Memᴰ a xs → p a ≡ true → Memᴰ a (keep p xs)
  mem-keep p [] a m ok = elim m [ ]
  mem-keep p (x ∷ xs) a (Memᴰ.head e) ok = rw (rw e at ok) (Memᴰ.head e)
  mem-keep p (x ∷ xs) a (Memᴰ.tail m) ok = elim (Bool-cases (p x)) [
    | inl kept ↦ rw kept (Memᴰ.tail (mem-keep p xs a m ok))
    | inr dropped ↦ rw dropped (mem-keep p xs a m ok)
  ]

module _ {ℓ} {A : Type ℓ} where
  pub any-false_iff :
      (f : A → Bool) (xs : List A) → (any f xs ≡ false) ↔ ((x : A) → Memᴰ x xs → f x ≡ false)
  any-false_iff f [] = (λ _ x d. elim d [ ], λ _. refl)
  any-false_iff f (y ∷ ys) = (
    λ h x d. elim (cases_cons d) [
      | inl e ↦ rw e (ground arith)
      | inr later ↦ (any-false_iff f ys).0 (ground arith) x later
    ],
    λ h.
        let first = h y (Memᴰ.head refl) in
        let rest = (any-false_iff f ys).1 (λ x d. h x (Memᴰ.tail d)) in ground arith,
  )

  pub any-true_iff :
      (f : A → Bool) (xs : List A) → (any f xs ≡ true) ↔ ((x : A) × Memᴰ x xs × (f x ≡ true))
  any-true_iff f [] = (λ h. ground (arith, h), λ (x, d, _). elim d [ ])
  any-true_iff f (y ∷ ys) = (
    λ h. elim (Bool-cases (f y)) [
      | inl here ↦ (y, Memᴰ.head refl, here)
      | inr there ↦ let (x, d, ok) = (any-true_iff f ys).0 (ground arith) in (x, Memᴰ.tail d, ok)
    ],
    λ (x, d, ok). elim (cases_cons d) [
      | inl e ↦ let here = subst (λ z. f z ≡ true) e ok in ground (arith, here)
      | inr later ↦ let there = (any-true_iff f ys).1 (x, later, ok) in ground (arith, there)
    ],
  )
