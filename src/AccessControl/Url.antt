-- ===== src/AccessControl/Url.antt =====
-- Reading an API path: `parseURLToGVR`, `stripAPIPathPrefix`, `parseURLToNamespaceAndName`,
-- `findResourceTypeIndex`, `httpMethodToVerb` and `isCollectionPath` of
-- pkg/kubernetes/accesscontrol_round_tripper.go. A result of -1 or not ok is `none`.
pub mod Segments
pub mod Targets
pub mod Laws
use Prim.Native.String as Str
use kube_mcp_server.Base.{
  ℕ, ◌+◌, ◌-◌, String, Bool, true, false, ◌&&◌, Option, none, some, List, [], ◌∷◌, ◌==◌, eqb, ltb,
  if◌then◌else◌, deref, length, get_elem?,
}
use kube_mcp_server.Base.Text.{
  has_prefix, trim_prefix, trim_slash, trim_last_slash, split_slash, to_lower,
}

pub record Gvr : Type 0 where
  pub group : String
  pub version : String
  pub resource : String

pub record Gvk : Type 0 where
  pub group : String
  pub version : String
  pub kind : String

-- `parts[i]`, read only where the length has been tested.
abbrev pub part_at : List String → ℕ → String
part_at parts i = deref (get_elem? parts i) ""

unfoldable pub parts_to_gvr : List String → Option Gvr
parts_to_gvr parts =
    if part_at parts 0 == "api"
    then if ltb (length parts) 3
      then none
      else some (record {
        group = "";
        version = part_at parts 1;
        resource =
            if part_at parts 2 == "namespaces" && ltb 4 (length parts)
            then part_at parts 4
            else part_at parts 2;
      })
    else if part_at parts 0 == "apis"
    then if ltb (length parts) 4
      then none
      else some (record {
        group = part_at parts 1;
        version = part_at parts 2;
        resource =
            if part_at parts 3 == "namespaces" && ltb 5 (length parts)
            then part_at parts 5
            else part_at parts 3;
      })
    else none

unfoldable pub parse_url_to_gvr : String → Option Gvr
parse_url_to_gvr path = parts_to_gvr (split_slash (trim_slash path))

unfoldable pub strip_api_path_prefix : String → String → String
strip_api_path_prefix path prefix =
    let p = trim_last_slash prefix in
    if p == ""
    then path
    else if path == p
    then "/"
    else if has_prefix path (Str.◌++◌ p "/")
    then trim_prefix path p
    else path

unfoldable pub find_resource_type_index : List String → Option ℕ
find_resource_type_index [] = none
find_resource_type_index (root ∷ rest) =
    let parts = root ∷ rest in
    if root == "api"
    then if ltb (length parts) 3
      then none
      else if part_at parts 2 == "namespaces" && ltb 4 (length parts)
      then some 4
      else some 2
    else if root == "apis"
    then if ltb (length parts) 4
      then none
      else if part_at parts 3 == "namespaces" && ltb 5 (length parts)
      then some 5
      else some 3
    else none

-- The loop over the parts, which breaks at the first "namespaces" that something follows.
unfoldable pub find_namespace : List String → String
find_namespace [] = ""
find_namespace (part ∷ []) = ""
find_namespace (part ∷ next ∷ rest) =
    let later = find_namespace (next ∷ rest) in if part == "namespaces" then next else later

-- The part behind the resource type, if there is one.
abbrev pub name_at : List String → Option ℕ → String
name_at parts none = ""
name_at parts (some i) = if ltb (i + 1) (length parts) then part_at parts (i + 1) else ""

unfoldable pub parse_url_to_namespace_and_name : String → String × String
parse_url_to_namespace_and_name path =
    let parts = split_slash (trim_slash path) in
    (find_namespace parts, name_at parts (find_resource_type_index parts))

abbrev pub is_last : List String → Option ℕ → Bool
is_last parts none = false
is_last parts (some i) = eqb i (length parts - 1)

unfoldable pub is_collection_path : String → Bool
is_collection_path path =
    let parts = split_slash (trim_slash path) in is_last parts (find_resource_type_index parts)

unfoldable pub http_method_to_verb : String → String → String
http_method_to_verb method path =
    if method == "GET"
    then if is_collection_path path then "list" else "get"
    else if method == "POST"
    then "create"
    else if method == "PUT"
    then "update"
    else if method == "PATCH"
    then "patch"
    else if method == "DELETE"
    then if is_collection_path path then "deletecollection" else "delete"
    else to_lower method
