-- ===== src/Mcp/Reload/Tracked.antt =====
-- What a reload leaves registered, against the names that the server keeps (pkg/mcp/mcp.go).

use mathlib.Core.Sum.{inr-injective}
use kube_mcp_server.Base.{
  String, ◌≡◌, refl, sym, ap, inl, inr, Bool, true, false, not, ◌&&◌, ◌||◌, Option, none, some,
  List, [], ◌∷◌, arith, eq_iff, ◌==◌, contains, keep, map, Bool-cases, Option-cases, subst,
}
use kube_mcp_server.Mcp.Reload.{
  ItemStore, ItemStoreLaws, register_item, register_all, enabled_or, reload_items,
}

pub contains-keep :
    (f : String → Bool) (names : List String) (n : String)
    → contains (keep f names) n ≡ contains names n && f n
contains-keep f [] n = refl
contains-keep f (x ∷ xs) n = elim (Bool-cases (f x)) [
  | inl kept ↦ elim (Bool-cases (x == n)) [
    | inl same ↦
        let here = subst (λ y. f y ≡ true) ((eq_iff x n).0 same) kept in
        ground (arith, contains-keep f xs n, here, kept)
    | inr other ↦ ground (arith, contains-keep f xs n, other, kept)
  ]
  | inr dropped ↦ elim (Bool-cases (x == n)) [
    | inl same ↦
        let gone = subst (λ y. f y ≡ false) ((eq_iff x n).0 same) dropped in
        ground (arith, contains-keep f xs n, gone, dropped)
    | inr other ↦ ground (arith, contains-keep f xs n, other, dropped)
  ]
]

module _ {T S : Type 0} (store : ItemStore T S) (laws : ItemStoreLaws store) where
  -- Every item that is served is among the names.
  abbrev pub Tracked : List String → S → Type 0
  Tracked names s = (n : String) → store.has s n ≡ true → contains names n ≡ true

  abbrev pub names_of : List T → List String
  names_of items = map (λ t. store.get_name t) items

  register_item-has :
      (t : T) (s : S) (n : String)
      → (register_item store t s).0 ≡ none
      → store.has (register_item store t s).1 n ≡ (store.get_name t == n) || store.has s n
  unfolding register_item
  register_item-has t s n ok = ground (arith, laws.has-add t s n)

  register_all-has :
      (items : List T) (s : S) (n : String)
      → (register_all store items s).0 ≡ none
      → store.has (register_all store items s).1 n ≡ contains (names_of items) n || store.has s n
  unfolding register_all
  register_all-has [] s n ok = refl
  register_all-has (t ∷ ts) s n ok = elim (Option-cases (register_item store t s).0) [
    | inl fine ↦
        rw (fine, register_all)
          (ground (
            arith,
            register_item-has t s n fine,
            register_all-has ts (register_item store t s).1 n (rw (fine, register_all) at ok),
          ))
    | inr (e, fails) ↦ ground (arith, fails, rw (fails, register_all) at ok)
  ]

  enabled_or-inr :
      (enabled names : List String) (o : Option String)
      → enabled_or store enabled o ≡ inr names
      → (o ≡ none) × (names ≡ enabled)
  enabled_or-inr enabled names none e = (refl, sym (inr-injective enabled names e))
  enabled_or-inr enabled names (some x) e = ground (arith, e)

  -- After a reload that succeeds, an item is served exactly if it is one of the new items, or it was
  -- served before under a name that the previous list lacks.
  reload_items-has :
      (previous names : List String) (items : List T) (s : S)
      → (reload_items store previous items s).0 ≡ inr names
      → (names ≡ names_of items)
        × ((n : String)
            → store.has (reload_items store previous items s).1 n
              ≡ contains names n || (store.has s n && not (contains previous n)))
  unfolding reload_items
  reload_items-has previous names items s ok =
      let enabled = names_of items in
      let stale = keep (λ old. not (contains enabled old)) previous in
      let (fine, same) =
        enabled_or-inr enabled names (register_all store items (store.remove stale s)).0 ok in
      (
        same,
        λ n. ground (
          arith,
          register_all-has items (store.remove stale s) n fine,
          laws.has-remove stale s n,
          contains-keep (λ old. not (contains enabled old)) previous n,
          ap (λ l. contains l n) same,
        ),
      )

  pub reload_items-exact :
      (previous names : List String) (items : List T) (s : S)
      → (reload_items store previous items s).0 ≡ inr names
      → Tracked previous s
      → (names ≡ names_of items)
        × ((n : String) → store.has (reload_items store previous items s).1 n ≡ contains names n)
  reload_items-exact previous names items s ok tracked =
      let (same, has) = reload_items-has previous names items s ok in
      (same, λ n. ground (arith, has n, tracked n))

module _ {T S : Type 0} (store : ItemStore T S) where
  register_all-none : (items : List T) (s : S) → (register_all store items s).0 ≡ none
  unfolding register_all register_item
  register_all-none [] s = refl
  register_all-none (t ∷ ts) s = register_all-none ts (store.add t s)

  -- A reload of items never fails.
  pub reload_items-inr :
      (previous : List String) (items : List T) (s : S)
      → (reload_items store previous items s).0 ≡ inr (map (λ t. store.get_name t) items)
  unfolding reload_items
  reload_items-inr previous items s = ap (enabled_or store (map (λ t. store.get_name t) items)) (
      register_all-none items (
        store.remove (keep (λ old. not (contains (map (λ t. store.get_name t) items) old)) previous)
          s))
