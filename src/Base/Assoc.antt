-- ===== src/Base/Assoc.antt =====
-- Go maps with text keys, as association lists. A map is iterated in the order of its entries,
-- which stands for the order that Go leaves open.
use Prim.Native.String.{String}
use mathlib.Core.Path.{◌≡◌}
use mathlib.Core.Option.{Option, none, some}
use mathlib.Core.List.{List, [], ◌∷◌}
use native.Mathlib.Omega.{arith}
use text.Mathlib.Text.{◌==◌}
use text.Mathlib.TextEquality.{eq_iff}
use mathlib.Core.List.{Memᴰ}
use mathlib.Core.List.Memᴰ.{cases_cons}
use mathlib.Core.Logic.{◌⊎◌, inl, inr}
use kube_mcp_server.Base.Tests.{if◌then◌else◌, Bool-cases}

abbrev pub Assoc {ℓ} : Type ℓ → Type ℓ
Assoc V = List (String × V)

module _ {ℓ} {V : Type ℓ} where
  -- v, ok := m[k]
  unfoldable pub lookup : String → Assoc V → Option V
  lookup key [] = none
  lookup key (entry ∷ later) =
      let found = lookup key later in if entry.0 == key then some entry.1 else found

  -- m[k] = v
  unfoldable pub insert : String → V → Assoc V → Assoc V
  insert key value [] = (key, value) ∷ []
  insert key value (entry ∷ later) =
      let rest = insert key value later in
      if entry.0 == key then (key, value) ∷ later else entry ∷ rest

  -- What a write changes.
  pub lookup-insert :
      (key other : String) (value : V) (entries : Assoc V)
      → lookup other (insert key value entries)
        ≡ (if key == other then some value else lookup other entries)
  unfolding lookup insert
  lookup-insert key other value [] = ground (arith, eq_iff key other)
  lookup-insert key other value (entry ∷ later) = ground (
    arith,
    lookup-insert key other value later,
    eq_iff key other,
    eq_iff entry.0 other,
    eq_iff entry.0 key,
  )

  pub insert-Mem :
      (key : String) (value : V) (entries : Assoc V) (x : String × V)
      → Memᴰ x (insert key value entries)
      → (x ≡ (key, value)) ⊎ Memᴰ x entries
  unfolding insert
  insert-Mem key value [] x m = elim (cases_cons m) [ inl e ↦ inl e | inr later ↦ elim later [ ] ]
  insert-Mem key value (entry ∷ later) x m = elim (Bool-cases (entry.0 == key)) [
    | inl same ↦ elim (cases_cons (rw same at m)) [ inl e ↦ inl e | inr old ↦ inr (Memᴰ.tail old) ]
    | inr other ↦ elim (cases_cons (rw other at m)) [
      | inl e ↦ inr (Memᴰ.head e)
      | inr deep ↦ elim (insert-Mem key value later x deep) [
        | inl e ↦ inl e
        | inr old ↦ inr (Memᴰ.tail old)
      ]
    ]
  ]

  pub lookup-Mem :
      (key : String) (value : V) (entries : Assoc V)
      → lookup key entries ≡ some value
      → Memᴰ (key, value) entries
  unfolding lookup
  lookup-Mem key value [] e = ground (arith, e)
  lookup-Mem key value ((k, v) ∷ later) e = elim (Bool-cases (k == key)) [
    | inl same ↦ Memᴰ.head (cc ((eq_iff k key).0 same, rw same at e))
    | inr other ↦ Memᴰ.tail (lookup-Mem key value later (rw other at e))
  ]
