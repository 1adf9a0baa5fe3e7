-- ===== src/AccessControl/Url/Laws.antt =====
-- What the gate reads from a path that follows the Kubernetes API conventions
-- (pkg/kubernetes/accesscontrol_round_tripper.go).
use Prim.Native.String as Str
use text.Mathlib.TextLemmas.{append_cancel_left, append-nil, nil-append, cons-append, cons-ne-nil}
use Prim.Native.Char.{Char}
use kube_mcp_server.Base.{
  String, ◌≡◌, refl, sym, ap, ◌∙◌, ◌≢◌, false, Option, none, some, List, ◌∷◌, arith, ◌==◌, eq_iff,
  if◌then◌else◌, All, Bool-cases, ◌++◌, deref, is_none, eq-false_of_ne, inl, inr,
}
use kube_mcp_server.Base.Text.{
  strip_prefix_self, strip_prefix, trim_last_slash, trim_slash, split_slash,
}
use kube_mcp_server.AccessControl.Url.{
  parse_url_to_gvr, strip_api_path_prefix, parse_url_to_namespace_and_name, is_collection_path,
  http_method_to_verb, name_at, is_last,
}
use kube_mcp_server.AccessControl.Url.Segments.{IsSegment, join, split_slash-join_segments}
use kube_mcp_server.AccessControl.Url.Targets.{
  root_of, scope_of, name_of, Target, segments, api_path, IsRegular, gvr_of, index_of, segments-gvr,
  segments-index, segments-namespace,
}

split-api_path : (t : Target) → IsRegular t → split_slash (trim_slash (api_path t)) ≡ segments t
split-api_path t h = split_root t.group t.version _ h.segments_ok
  where
    split_root :
        (g : Option String) (v : String) (rest : List String)
        → All IsSegment (root_of g v ++ rest)
        → split_slash (trim_slash (join (root_of g v ++ rest))) ≡ root_of g v ++ rest
    split_root none v rest k = split_slash-join_segments "api" (v ∷ rest) k
    split_root (some g) v rest k = split_slash-join_segments "apis" (g ∷ v ∷ rest) k

name_at-index :
    (g : Option String) (v : String) (s : Option String) (r : String) (n : Option String)
    → name_at (root_of g v ++ (scope_of s ++ r ∷ name_of n)) (some (index_of g s)) ≡ deref n ""
name_at-index none v none r none = refl
name_at-index none v none r (some n) = refl
name_at-index none v (some s) r none = refl
name_at-index none v (some s) r (some n) = refl
name_at-index (some g) v none r none = refl
name_at-index (some g) v none r (some n) = refl
name_at-index (some g) v (some s) r none = refl
name_at-index (some g) v (some s) r (some n) = refl

is_last-index :
    (g : Option String) (v : String) (s : Option String) (r : String) (n : Option String)
    → is_last (root_of g v ++ (scope_of s ++ r ∷ name_of n)) (some (index_of g s)) ≡ is_none n
is_last-index none v none r none = refl
is_last-index none v none r (some n) = refl
is_last-index none v (some s) r none = refl
is_last-index none v (some s) r (some n) = refl
is_last-index (some g) v none r none = refl
is_last-index (some g) v none r (some n) = refl
is_last-index (some g) v (some s) r none = refl
is_last-index (some g) v (some s) r (some n) = refl

-- From the path of a regular resource the gate reads back its group, version and type, its
-- namespace and its name (empty where there is none), and whether it is a collection.
pub api_path_read_back :
    (t : Target)
    → IsRegular t
    → (parse_url_to_gvr (api_path t) ≡ some (gvr_of t))
      × (parse_url_to_namespace_and_name (api_path t) ≡ (deref t.namespace "", deref t.name ""))
      × (is_collection_path (api_path t) ≡ is_none t.name)
unfolding parse_url_to_gvr parse_url_to_namespace_and_name is_collection_path
api_path_read_back t h =
    rw
      (
        split-api_path t h,
        segments-index t.group t.version t.namespace t.resource t.name (λ e. (h.scope_plain e).0),
        name_at-index t.group t.version t.namespace t.resource t.name,
        is_last-index t.group t.version t.namespace t.resource t.name,
      )
      (
        segments-gvr t.group t.version t.namespace t.resource t.name (λ e. (h.scope_plain e).0),
        ap (λ s. (s, deref t.name ""))
            (segments-namespace t.group t.version t.namespace t.resource t.name h.group_plain
              h.version_plain h.scope_plain),
        refl,
      )

-- The verb of a request for a regular resource: reading and deleting tell a collection from an
-- object, and the methods that write do not look at the path.
pub http_method_to_verb-api_path :
    (t : Target)
    → IsRegular t
    → (http_method_to_verb "GET" (api_path t) ≡ (if is_none t.name then "list" else "get"))
      × (http_method_to_verb "DELETE" (api_path t)
          ≡ (if is_none t.name then "deletecollection" else "delete"))
      × (http_method_to_verb "POST" (api_path t) ≡ "create")
      × (http_method_to_verb "PUT" (api_path t) ≡ "update")
      × (http_method_to_verb "PATCH" (api_path t) ≡ "patch")
unfolding http_method_to_verb
http_method_to_verb-api_path t h = rw (api_path_read_back t h).2 (refl, refl, refl, refl, refl)

strip_prefix-append :
    (p q s : String) → strip_prefix (Str.◌++◌ p q) (Str.◌++◌ p s) ≡ strip_prefix q s
unfolding strip_prefix
strip_prefix-append String.[] q s = simp nil-append
strip_prefix-append (String.◌∷◌ c p) q s =
    simp cons-append (ground (arith, strip_prefix-append p q s))

-- The path behind the base is longer than the base.
append-ne_self : (p : String) (c : Char) (s : String) → (Str.◌++◌ p (String.◌∷◌ c s) == p) ≡ false
append-ne_self p c s =
    eq-false_of_ne _ p
      (λ e. cons-ne-nil c s (append_cancel_left p (String.◌∷◌ c s) "" (e ∙ sym (append-nil p))))

strip_base :
    (base : String) (p : String) (ps : List String)
    → trim_last_slash base ≢ ""
    → strip_api_path_prefix (Str.◌++◌ (trim_last_slash base) (join (p ∷ ps))) base ≡ join (p ∷ ps)
unfolding strip_api_path_prefix strip_prefix
strip_base base p ps h = rw (
  eq-false_of_ne _ "" h,
  append-ne_self (trim_last_slash base) "/" (Str.◌++◌ p (join ps)),
  strip_prefix-append (trim_last_slash base) "/" (join (p ∷ ps)),
  strip_prefix_self (trim_last_slash base) (join (p ∷ ps)),
)

strip_no_base :
    (base path : String)
    → trim_last_slash base ≡ ""
    → strip_api_path_prefix (Str.◌++◌ (trim_last_slash base) path) base ≡ path
unfolding strip_api_path_prefix
strip_no_base base path e = rw (e, nil-append)

-- An API server behind a base path is read like one without: where the configured base path (less
-- a slash at its end) stands in front of a path of one segment or more, it is stripped, and nothing
-- else is. The base path may be empty.
pub strip_api_path_prefix-append :
    (base p : String) (ps : List String)
    → strip_api_path_prefix (Str.◌++◌ (trim_last_slash base) (join (p ∷ ps))) base ≡ join (p ∷ ps)
strip_api_path_prefix-append base p ps = elim (Bool-cases (trim_last_slash base == "")) [
  | inl e ↦ strip_no_base base _ ((eq_iff _ "").0 e)
  | inr ne ↦ strip_base base p ps (λ e. cc (ne, (eq_iff _ "").1 e))
]
