-- ===== src/AccessControl/Url/Targets.antt =====
-- Paths that follow the Kubernetes API conventions, and what the functions on their segments
-- return (pkg/kubernetes/accesscontrol_round_tripper.go).
use kube_mcp_server.Base.{
  ℕ, String, ◌≡◌, refl, ◌≢◌, Option, none, some, List, [], ◌∷◌, arith, eq_iff, All, ◌++◌, deref,
}
use kube_mcp_server.AccessControl.Url.{Gvr, parts_to_gvr, find_resource_type_index, find_namespace}
use kube_mcp_server.AccessControl.Url.Segments.{IsSegment, join}

-- The root of the core group's paths, or of a named group's.
abbrev pub root_of : Option String → String → List String
root_of none version = "api" ∷ version ∷ []
root_of (some group) version = "apis" ∷ group ∷ version ∷ []

abbrev pub scope_of : Option String → List String
scope_of none = []
scope_of (some namespace) = "namespaces" ∷ namespace ∷ []

abbrev pub name_of : Option String → List String
name_of none = []
name_of (some name) = name ∷ []

-- A resource of the API: a group (`none` is the core group), a version, a namespace unless it is
-- cluster-scoped, the resource type, and the name of one object unless the collection is meant.
pub record Target : Type 0 where
  pub group : Option String
  pub version : String
  pub namespace : Option String
  pub resource : String
  pub name : Option String

abbrev pub segments : Target → List String
segments t = root_of t.group t.version ++ (scope_of t.namespace ++ t.resource ∷ name_of t.name)

-- The path of the resource.
abbrev pub api_path : Target → String
api_path t = join (segments t)

abbrev pub IsPlain : String → Type 0
IsPlain s = s ≢ "namespaces"

abbrev pub IsPlain? : Option String → Type 0
IsPlain? none = Unit
IsPlain? (some s) = IsPlain s

-- Every part is a segment, and none of them is the word that marks the namespace. In a namespaced
-- path what stands behind the namespace may be anything.
pub record IsRegular (t : Target) : Type 0 where
  pub segments_ok : All IsSegment (segments t)
  pub group_plain : IsPlain? t.group
  pub version_plain : IsPlain t.version
  pub scope_plain : t.namespace ≡ none → IsPlain t.resource × IsPlain? t.name

abbrev pub gvr_of : Target → Gvr
gvr_of t = record { group = deref t.group ""; version = t.version; resource = t.resource }

pub segments-gvr :
    (g : Option String) (v : String) (s : Option String) (r : String) (n : Option String)
    → (s ≡ none → IsPlain r)
    → parts_to_gvr (root_of g v ++ (scope_of s ++ r ∷ name_of n))
      ≡ some (record { group = deref g ""; version = v; resource = r })
unfolding parts_to_gvr
segments-gvr none v none r none h = ground (arith, h refl, eq_iff r "namespaces")
segments-gvr none v none r (some n) h = ground (arith, h refl, eq_iff r "namespaces")
segments-gvr none v (some s) r none h = refl
segments-gvr none v (some s) r (some n) h = refl
segments-gvr (some g) v none r none h = ground (arith, h refl, eq_iff r "namespaces")
segments-gvr (some g) v none r (some n) h = ground (arith, h refl, eq_iff r "namespaces")
segments-gvr (some g) v (some s) r none h = refl
segments-gvr (some g) v (some s) r (some n) h = refl

abbrev pub index_of : Option String → Option String → ℕ
index_of none none = 2
index_of none (some s) = 4
index_of (some g) none = 3
index_of (some g) (some s) = 5

pub segments-index :
    (g : Option String) (v : String) (s : Option String) (r : String) (n : Option String)
    → (s ≡ none → IsPlain r)
    → find_resource_type_index (root_of g v ++ (scope_of s ++ r ∷ name_of n)) ≡ some (index_of g s)
unfolding find_resource_type_index
segments-index none v none r none h = ground (arith, h refl, eq_iff r "namespaces")
segments-index none v none r (some n) h = ground (arith, h refl, eq_iff r "namespaces")
segments-index none v (some s) r none h = refl
segments-index none v (some s) r (some n) h = refl
segments-index (some g) v none r none h = ground (arith, h refl, eq_iff r "namespaces")
segments-index (some g) v none r (some n) h = ground (arith, h refl, eq_iff r "namespaces")
segments-index (some g) v (some s) r none h = refl
segments-index (some g) v (some s) r (some n) h = refl

pub segments-namespace :
    (g : Option String) (v : String) (s : Option String) (r : String) (n : Option String)
    → IsPlain? g
    → IsPlain v
    → (s ≡ none → IsPlain r × IsPlain? n)
    → find_namespace (root_of g v ++ (scope_of s ++ r ∷ name_of n)) ≡ deref s ""
unfolding find_namespace
segments-namespace none v none r none _ hv h =
    ground (arith, h refl, eq_iff r "namespaces", eq_iff v "namespaces")
segments-namespace none v none r (some n) _ hv h =
    ground (arith, h refl, eq_iff r "namespaces", eq_iff v "namespaces", eq_iff n "namespaces")
segments-namespace none v (some s) r n _ hv h = ground (arith, eq_iff v "namespaces")
segments-namespace (some g) v none r none hg hv h =
    ground (arith, h refl, eq_iff r "namespaces", eq_iff v "namespaces", eq_iff g "namespaces")
segments-namespace (some g) v none r (some n) hg hv h = ground (
  arith,
  h refl,
  eq_iff r "namespaces",
  eq_iff v "namespaces",
  eq_iff g "namespaces",
  eq_iff n "namespaces",
)
segments-namespace (some g) v (some s) r n hg hv h =
    ground (arith, eq_iff v "namespaces", eq_iff g "namespaces")
