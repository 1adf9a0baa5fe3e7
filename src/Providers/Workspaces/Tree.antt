-- ===== src/Providers/Workspaces/Tree.antt =====
-- The tree of workspaces that a server lists, and what a discovery makes of a set of them
-- (pkg/kcp/workspace.go).
use kube_mcp_server.Base.{
  ℕ, zero, suc, String, true, false, ◌⊎◌, inl, inr, Option, some, List, ◌∷◌, ◌==◌, ◌≡◌, arith,
  contains, eq_iff, Bool-cases,
}
use kube_mcp_server.Providers.Workspaces.{full_path}

-- A name on a list of names, with the path of that child.
pub record IsListed (names : List String) (parent child : String) : Type 0 where
  pub name : String
  pub in_list : contains names name ≡ true
  pub named : (name == "") ≡ false
  pub path : child ≡ full_path parent name

pub cases_contains :
    (x : String) (xs : List String) (y : String)
    → contains (x ∷ xs) y ≡ true
    → (x ≡ y) ⊎ (contains xs y ≡ true)
cases_contains x xs y h = elim (Bool-cases (x == y)) [
  | inl e ↦ inl ((eq_iff x y).0 e)
  | inr e ↦ inr (ground (arith, h, e))
]

IsListed-cons :
    (n : String) (names : List String) (parent child : String)
    → IsListed (n ∷ names) parent child
    → (((n == "") ≡ false) × (child ≡ full_path parent n)) ⊎ IsListed names parent child
IsListed-cons n names parent child l = by_name (Bool-cases (n == l.name))
  where
    by_name :
        ((n == l.name) ≡ true) ⊎ ((n == l.name) ≡ false)
        → (((n == "") ≡ false) × (child ≡ full_path parent n)) ⊎ IsListed names parent child
    by_name (inl e) =
        let same : n ≡ l.name = (eq_iff n l.name).0 e in inl (rw same l.named, rw same l.path)
    by_name (inr e) = inr (record {
      name = l.name;
      in_list = ground (arith, l.in_list, e);
      named = l.named;
      path = l.path;
    })

pub IsListed-later :
    (n : String) (names : List String) (parent child : String)
    → IsListed names parent child
    → IsListed (n ∷ names) parent child
IsListed-later n names parent child l = record {
  name = l.name;
  in_list = ground (arith, l.in_list);
  named = l.named;
  path = l.path;
}

module _ (listing : String → Option (List String)) where
  -- The server lists the one workspace under the other.
  abbrev pub IsChild : String → String → Type 0
  IsChild parent child =
      (names : List String) × (listing parent ≡ some names) × IsListed names parent child

  pub data Reach : String → String → Type 0 where
    here : {root : String} → Reach root root
    below :
        {root parent child : String} → Reach root parent → IsChild parent child → Reach root child

  -- The listings under a workspace end within a depth.
  abbrev pub IsWithin : ℕ → String → Type 0
  IsWithin zero workspace = ⊥
  IsWithin (suc depth) workspace = (child : String) → IsChild workspace child → IsWithin depth child

  -- What a discovery under `parent` makes of a set: it keeps it, adds the children, adds only what is
  -- reached, and adds the children of whatever it adds.
  pub record Discovers (parent : String) (Child : String → Type 0) (before after : List String)
      : Type 0 where
    pub keeps : (x : String) → contains before x ≡ true → contains after x ≡ true
    pub adds : (child : String) → Child child → contains after child ≡ true
    pub closed :
        (x : String)
        → contains after x ≡ true
        → (contains before x ≡ true)
          ⊎ ((child : String) → IsChild x child → contains after child ≡ true)
    pub sound :
        (root : String)
        → Reach root parent
        → ((x : String) → contains before x ≡ true → Reach root x)
        → (x : String) → contains after x ≡ true
        → Reach root x

  -- What the discovery one level down gives, whatever is discovered before.
  abbrev pub Explores : (String → List String → Option (List String)) → String → Type 0
  Explores down child =
      (before : List String)
      → (after : List String) × (down child before ≡ some after)
        × Discovers child (IsChild child) before after

  -- A set that is left as it is, if the children are in it already.
  pub unchanged-Discovers :
      (parent : String) (Child : String → Type 0) (before : List String)
      → ((child : String) → Child child → contains before child ≡ true)
      → Discovers parent Child before before
  unchanged-Discovers parent Child before there = record {
    keeps = λ x h. h;
    adds = there;
    closed = λ x h. inl h;
    sound = λ root r all x h. all x h;
  }

  pub Discovers-then :
      (parent name : String) (names before mid after : List String)
      → Discovers parent (λ x. ((name == "") ≡ false) × (x ≡ full_path parent name)) before mid
      → Discovers parent (IsListed names parent) mid after
      → Discovers parent (IsListed (name ∷ names) parent) before after
  Discovers-then parent name names before mid after first rest = record {
    keeps = λ x h. rest.keeps x (first.keeps x h);
    adds = λ x l. elim (IsListed-cons name names parent x l) [
      | inl this ↦ rest.keeps x (first.adds x this)
      | inr later ↦ rest.adds x later
    ];
    closed = λ x h. elim (rest.closed x h) [
      | inr children ↦ inr children
      | inl old ↦ elim (first.closed x old) [
        | inr children ↦ inr (λ c k. rest.keeps c (children c k))
        | inl older ↦ inl older
      ]
    ];
    sound = λ root r all x h. rest.sound root r (first.sound root r all) x h;
  }
