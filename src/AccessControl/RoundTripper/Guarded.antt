-- ===== src/AccessControl/RoundTripper/Guarded.antt =====
-- What has been established when a request reaches the API server (`RoundTrip` of
-- pkg/kubernetes/accesscontrol_round_tripper.go).
use Prim.Native.String as Str
use kube_mcp_server.Base.{
  String, ◌≡◌, refl, ap, ◌∙◌, ◌↔◌, ◌⊎◌, inl, inr, true, Option, none, some, Bool-cases,
}
use kube_mcp_server.Base.Text.{trim_last_slash}
use kube_mcp_server.AccessControl.Url.{Gvr, Gvk, parse_url_to_gvr, strip_api_path_prefix}
use kube_mcp_server.AccessControl.Url.Targets.{Target, api_path, IsRegular, gvr_of}
use kube_mcp_server.AccessControl.Url.Laws.{api_path_read_back}
use kube_mcp_server.AccessControl.Validators.{ValidatorError}
use kube_mcp_server.AccessControl.RoundTripper.{
  HttpRequest, KindReply, kind_is, no_match, kind_error, Outcome, delegated, RoundTripper,
  is_allowed, is_access_review, read_body, validation_request, run_validators, finish, check_body,
  guard_kind, guard_resource, map_kind, route, round_trip,
}
use kube_mcp_server.AccessControl.RoundTripper.Denied.{stripped_api_path}

-- The validators that ran let the request through.
pub record Validated {W R : Type 0} (rt : RoundTripper W R) (req : HttpRequest) (w : W)
    (path : String) (gvr : Gvr) (gvk : Gvk) : Type 0 where
  pub body : String
  pub body_read : read_body req ≡ inr body
  pub passed : (run_validators rt.validators (validation_request req path gvr gvk body) w).0 ≡ none

-- The kind is known and allowed, and the validators passed unless the request is a review of
-- access.
pub record Cleared {W R : Type 0} (rt : RoundTripper W R) (req : HttpRequest) (w : W)
    (path : String) (gvr : Gvr) : Type 0 where
  pub mapper : Gvr → KindReply
  pub mapped : rt.rest_mapper w ≡ some mapper
  pub gvk : Gvk
  pub kind_found : mapper gvr ≡ kind_is gvk
  pub allowed : is_allowed rt.denied_resources gvk w ≡ true
  pub validated : (is_access_review gvr ≡ true) ⊎ Validated rt req w path gvr gvk

module _ {W R : Type 0} (rt : RoundTripper W R) (req : HttpRequest) (w : W) where
  finish-delegated :
      (v : Option ValidatorError × W) {r : R} → (finish rt req v).0 ≡ delegated r → v.0 ≡ none
  unfolding finish
  finish-delegated (some e, w') h = cc
  finish-delegated (none, w') h = refl

  check_body-delegated :
      (path : String) (gvr : Gvr) (gvk : Gvk) (b : String ⊎ String) {r : R}
      → read_body req ≡ b
      → (check_body rt req path gvr gvk b w).0 ≡ delegated r
      → Validated rt req w path gvr gvk
  unfolding check_body
  check_body-delegated path gvr gvk (inl e) read h = cc
  check_body-delegated path gvr gvk (inr text) read h = record {
    body = text;
    body_read = read;
    passed = finish-delegated _ h;
  }

  guard_kind-delegated :
      (path : String) (gvr : Gvr) (gvk : Gvk) {r : R}
      → (guard_kind rt req path gvr gvk w).0 ≡ delegated r
      → (is_allowed rt.denied_resources gvk w ≡ true)
        × ((is_access_review gvr ≡ true) ⊎ Validated rt req w path gvr gvk)
  unfolding guard_kind
  guard_kind-delegated path gvr gvk h = elim (Bool-cases (is_allowed rt.denied_resources gvk w)) [
    | inl ok ↦ (
      ok,
      elim (Bool-cases (is_access_review gvr)) [
        | inl review ↦ inl review
        | inr other ↦
            inr (check_body-delegated path gvr gvk (read_body req) refl (rw (ok, other) at h))
      ],
    )
    | inr denied ↦ cc (rw denied at h)
  ]

  guard_resource-delegated :
      (path : String) (gvr : Gvr) (mapper : Gvr → KindReply) (k : KindReply) {r : R}
      → rt.rest_mapper w ≡ some mapper
      → mapper gvr ≡ k
      → (guard_resource rt req path gvr k w).0 ≡ delegated r
      → Cleared rt req w path gvr
  unfolding guard_resource
  guard_resource-delegated path gvr mapper no_match e found h = cc
  guard_resource-delegated path gvr mapper (kind_error x) e found h = cc
  guard_resource-delegated path gvr mapper (kind_is k) e found h =
      let (ok, passed_all) = guard_kind-delegated path gvr k h in
      record {
        mapper = mapper;
        mapped = e;
        gvk = k;
        kind_found = found;
        allowed = ok;
        validated = passed_all;
      }

  map_kind-delegated :
      (path : String) (gvr : Gvr) (m : Option (Gvr → KindReply)) {r : R}
      → rt.rest_mapper w ≡ m
      → (map_kind rt req path gvr m w).0 ≡ delegated r
      → Cleared rt req w path gvr
  unfolding map_kind
  map_kind-delegated path gvr none e h = cc
  map_kind-delegated path gvr (some mapper) e h =
      guard_resource-delegated path gvr mapper (mapper gvr) e refl h

  round_trip_path :
      (t : Target)
      → IsRegular t
      → req.path ≡ Str.◌++◌ (trim_last_slash rt.api_path_prefix) (api_path t)
      → round_trip rt req w ≡ route rt req (api_path t) (some (gvr_of t)) w
  unfolding round_trip
  round_trip_path t regular at_path =
      ap (λ p. route rt req p (parse_url_to_gvr p) w)
        (ap (λ p. strip_api_path_prefix p rt.api_path_prefix) at_path
          ∙ stripped_api_path rt.api_path_prefix t)
      ∙ ap (λ o. route rt req (api_path t) o w) (api_path_read_back t regular).0

  abbrev Reaches : Outcome R → Type 0
  Reaches o = (r : R) × (o ≡ delegated r)

  finish-none : (v : Option ValidatorError × W) → v.0 ≡ none → Reaches (finish rt req v).0
  unfolding finish
  finish-none (some e, w') h = cc
  finish-none (none, w') h = ((rt.delegate req w').0, refl)

  guard_kind_cleared :
      (path : String) (gvr : Gvr) (gvk : Gvk)
      → is_allowed rt.denied_resources gvk w ≡ true
      → (is_access_review gvr ≡ true) ⊎ Validated rt req w path gvr gvk
      → Reaches (guard_kind rt req path gvr gvk w).0
  unfolding guard_kind
  guard_kind_cleared path gvr gvk ok (inl review) = rw (ok, review) ((rt.delegate req w).0, refl)
  guard_kind_cleared path gvr gvk ok (inr v) = elim (Bool-cases (is_access_review gvr)) [
    | inl review ↦ rw (ok, review) ((rt.delegate req w).0, refl)
    | inr other ↦ rw (ok, other, v.body_read) (finish-none _ v.passed)
  ]

  -- A request for a regular resource reaches the delegate exactly if it is cleared: its kind is
  -- known and no entry denies it, and it is a review of access, or its body could be read and all
  -- validators passed.
  pub round_trip-delegated_iff :
      (t : Target)
      → IsRegular t
      → req.path ≡ Str.◌++◌ (trim_last_slash rt.api_path_prefix) (api_path t)
      → ((r : R) × ((round_trip rt req w).0 ≡ delegated r))
        ↔ Cleared rt req w (api_path t) (gvr_of t)
  unfolding route
  round_trip-delegated_iff t regular at_path =
      let there = round_trip_path t regular at_path in
      (
        λ reached.
            map_kind-delegated (api_path t) (gvr_of t) (rt.rest_mapper w) refl
              (rw there at reached.1),
        λ c.
            rw (there, c.mapped, c.kind_found)
              (guard_kind_cleared (api_path t) (gvr_of t) c.gvk c.allowed c.validated),
      )
