-- ===== src/AccessControl/RoundTripper/Denied.antt =====
-- Denied kinds never reach the API server (`isAllowed` and `RoundTrip` of
-- pkg/kubernetes/accesscontrol_round_tripper.go).
use mathlib.Core.List.{Memᴰ}
use Prim.Native.String as Str
use kube_mcp_server.Base.{
  String, ◌≡◌, refl, ap, ◌∙◌, ◌↔◌, ◌⊎◌, inl, inr, true, false, Option, none, some, List, [], ◌∷◌,
  ◌++◌, arith, eq_iff, Bool-cases,
}
use kube_mcp_server.Base.Text.{trim_last_slash}
use kube_mcp_server.AccessControl.Url.{Gvr, Gvk, parse_url_to_gvr, strip_api_path_prefix}
use kube_mcp_server.AccessControl.Url.Targets.{root_of, Target, api_path, IsRegular, gvr_of}
use kube_mcp_server.AccessControl.Url.Segments.{join}
use kube_mcp_server.AccessControl.Url.Laws.{api_path_read_back, strip_api_path_prefix-append}
use kube_mcp_server.AccessControl.RoundTripper.{
  HttpRequest, KindReply, kind_is, refused, not_allowed, RoundTripper, denies, no_entry_denies,
  is_allowed, guard_kind, guard_resource, map_kind, route, round_trip,
}

-- An entry of the list denies a kind: its group and version agree, and it names the kind or none.
pub record Denies (val gvk : Gvk) : Type 0 where
  pub same_group : val.group ≡ gvk.group
  pub same_version : val.version ≡ gvk.version
  pub covers : (val.kind ≡ "") ⊎ (val.kind ≡ gvk.kind)

denies_iff : (gvk val : Gvk) → (denies gvk val ≡ true) ↔ Denies val gvk
unfolding denies
denies_iff gvk val = (
  ground (
    arith,
    eq_iff val.kind "",
    eq_iff gvk.group val.group,
    eq_iff gvk.version val.version,
    eq_iff gvk.kind val.kind,
  ),
  ground (
    arith,
    eq_iff val.kind "",
    eq_iff gvk.group val.group,
    eq_iff gvk.version val.version,
    eq_iff gvk.kind val.kind,
  ),
)

no_entry_denies_sound :
    (gvk val : Gvk) (vals : List Gvk)
    → Memᴰ val vals
    → Denies val gvk
    → no_entry_denies gvk vals ≡ false
unfolding no_entry_denies
no_entry_denies_sound gvk val [] m d = elim m [ ]
no_entry_denies_sound gvk val (x ∷ vals) (Memᴰ.head e) d =
    ground (arith, (denies_iff gvk x).1 (rw e at d))
no_entry_denies_sound gvk val (x ∷ vals) (Memᴰ.tail m) d =
    ground (arith, no_entry_denies_sound gvk val vals m d)

no_entry_denies_complete :
    (gvk : Gvk) (vals : List Gvk)
    → ((val : Gvk) → Memᴰ val vals → ¬ Denies val gvk)
    → no_entry_denies gvk vals ≡ true
unfolding no_entry_denies
no_entry_denies_complete gvk [] h = refl
no_entry_denies_complete gvk (x ∷ vals) h = elim (Bool-cases (denies gvk x)) [
  | inl d ↦ absurd (h x (Memᴰ.head refl) ((denies_iff gvk x).0 d))
  | inr ok ↦ rw ok (no_entry_denies_complete gvk vals (λ v m. h v (Memᴰ.tail m)))
]

module _ {W : Type 0} (denied : W → List Gvk) (gvk : Gvk) (w : W) where
  -- A kind is allowed exactly if no entry of the list denies it.
  pub is_allowed_iff :
      (is_allowed (some denied) gvk w ≡ true)
      ↔ ((val : Gvk) → Memᴰ val (denied w) → ¬ Denies val gvk)
  unfolding is_allowed
  is_allowed_iff = (
    λ ok val m d. cc (ok, no_entry_denies_sound gvk val (denied w) m d),
    no_entry_denies_complete gvk (denied w),
  )

-- The path that the gate reads, for a request at the path of a regular resource.
stripped :
    (base : String) (g : Option String) (v : String) (rest : List String)
    → strip_api_path_prefix (Str.◌++◌ (trim_last_slash base) (join (root_of g v ++ rest))) base
      ≡ join (root_of g v ++ rest)
stripped base none v rest = strip_api_path_prefix-append base "api" (v ∷ rest)
stripped base (some g) v rest = strip_api_path_prefix-append base "apis" (g ∷ v ∷ rest)

pub stripped_api_path :
    (base : String) (t : Target)
    → strip_api_path_prefix (Str.◌++◌ (trim_last_slash base) (api_path t)) base ≡ api_path t
stripped_api_path base t = stripped base t.group t.version _

module _ {W R : Type 0} (rt : RoundTripper W R) (req : HttpRequest) (w : W) where
  -- The way to the guard of the kind.
  pub round_trip-guard_kind :
      (path : String) (gvr : Gvr) (mapper : Gvr → KindReply) (gvk : Gvk)
      → strip_api_path_prefix req.path rt.api_path_prefix ≡ path
      → parse_url_to_gvr path ≡ some gvr
      → rt.rest_mapper w ≡ some mapper
      → mapper gvr ≡ kind_is gvk
      → round_trip rt req w ≡ guard_kind rt req path gvr gvk w
  unfolding round_trip
  round_trip-guard_kind path gvr mapper gvk read parsed mapped found =
      ap (λ p. route rt req p (parse_url_to_gvr p) w) read
      ∙ ap (λ o. route rt req path o w) parsed
      ∙ ap (λ m. map_kind rt req path gvr m w) mapped
      ∙ ap (λ k. guard_resource rt req path gvr k w) found

-- A request for a regular resource, whatever its method and body and whatever base path the API
-- server has, whose kind an entry of the list denies: it is refused with that kind, and neither the
-- validators nor the delegate have run.
pub round_trip_denied :
    {W R : Type 0} (rt : RoundTripper W R) (req : HttpRequest) (w : W) (t : Target)
    (mapper : Gvr → KindReply) (gvk val : Gvk) (denied : W → List Gvk)
    → IsRegular t
    → req.path ≡ Str.◌++◌ (trim_last_slash rt.api_path_prefix) (api_path t)
    → rt.rest_mapper w ≡ some mapper
    → mapper (gvr_of t) ≡ kind_is gvk
    → rt.denied_resources ≡ some denied
    → Memᴰ val (denied w)
    → Denies val gvk
    → round_trip rt req w ≡ (refused (not_allowed gvk), w)
unfolding guard_kind is_allowed
round_trip_denied rt req w t mapper gvk val denied regular at_path mapped found listed m d =
    round_trip-guard_kind rt req w (api_path t) (gvr_of t) mapper gvk
      (ap (λ p. strip_api_path_prefix p rt.api_path_prefix) at_path
        ∙ stripped_api_path rt.api_path_prefix t)
      (api_path_read_back t regular).0 mapped found
    ∙ rw (listed, no_entry_denies_sound gvk val (denied w) m d) refl
