-- ===== src/Kiali/Requests/Worst.antt =====
-- What the health of requests depends on (pkg/kiali/health_calculation.go).

use kube_mcp_server.Base.{
  String, ◌≡◌, inl, inr, Bool, not, ◌&&◌, ◌||◌, [], ◌∷◌, ◌≤◌, arith, any, if◌then◌else◌, Bool-cases,
}
use kube_mcp_server.Base.Assoc.{Assoc}
use kube_mcp_server.Kiali.{Floats, Status}
use kube_mcp_server.Kiali.Requests.{
  is_error_code, priority, merge_health_status, is_unhealthy, is_degraded, is_healthy, zero_float,
  get_status_for_code_ratio, sum_counts, next_code, process_codes, process_requests,
}

-- Merging statuses is commutative, associative and idempotent, and the merged status is at least as
-- bad as each of the two: unhealthy before degraded before not ready before healthy before unknown.
pub merge_health_status-lattice :
    (a b c : Status)
    → (merge_health_status a b ≡ merge_health_status b a)
      × (merge_health_status (merge_health_status a b) c
          ≡ merge_health_status a (merge_health_status b c))
      × (merge_health_status a a ≡ a)
      × (priority a ≤ priority (merge_health_status a b))
      × (priority b ≤ priority (merge_health_status a b))
unfolding merge_health_status priority
merge_health_status-lattice a b c =
    (ground arith, ground arith, ground arith, ground arith, ground arith)

abbrev pub bad : Status → Bool
bad s = is_unhealthy s || is_degraded s

module _ {F : Type 0} (fl : Floats F) where
  abbrev pub total_of : Assoc F → F
  total_of codes = sum_counts fl (zero_float fl) codes

  abbrev pub status_of : String → F → String × F → Status
  status_of protocol total c = get_status_for_code_ratio fl protocol c.0 (fl.divided c.1 total)

  -- The codes of a protocol that are errors and whose status passes a test.
  abbrev pub finds : (Status → Bool) → String → F → Assoc F → Bool
  finds test protocol total codes =
      any (λ c. is_error_code protocol c.0 && test (status_of protocol total c)) codes

  abbrev pub finds_in : (Status → Bool) → String × Assoc F → Bool
  finds_in test p = not (fl.eq (total_of p.1) (zero_float fl)) && finds test p.0 (total_of p.1) p.1

  next_code-unhealthy :
      (protocol : String) (total : F) (c : String × F) (acc : Status × F)
      → is_unhealthy (next_code fl protocol total c acc).0
        ≡ is_unhealthy acc.0
          || (is_error_code protocol c.0 && is_unhealthy (status_of protocol total c))
  unfolding next_code
  next_code-unhealthy protocol total c acc = elim (Bool-cases (is_error_code protocol c.0)) [
    | inl error ↦ rw (error, next_code) (ground arith)
    | inr fine ↦ rw (fine, next_code) (ground arith)
  ]

  next_code-healthy :
      (protocol : String) (total : F) (c : String × F) (acc : Status × F)
      → is_healthy (next_code fl protocol total c acc).0
        ≡ is_healthy acc.0 && not (is_error_code protocol c.0 && bad (status_of protocol total c))
  unfolding next_code
  next_code-healthy protocol total c acc = elim (Bool-cases (is_error_code protocol c.0)) [
    | inl error ↦ rw (error, next_code) (ground arith)
    | inr fine ↦ rw (fine, next_code) (ground arith)
  ]

  process_codes-unhealthy :
      (protocol : String) (total : F) (codes : Assoc F) (acc : Status × F)
      → is_unhealthy (process_codes fl protocol total codes acc).0
        ≡ is_unhealthy acc.0 || finds is_unhealthy protocol total codes
  unfolding process_codes
  process_codes-unhealthy protocol total [] acc = ground arith
  process_codes-unhealthy protocol total (c ∷ codes) acc = ground (
    arith,
    process_codes-unhealthy protocol total codes (next_code fl protocol total c acc),
    next_code-unhealthy protocol total c acc,
  )

  process_codes-healthy :
      (protocol : String) (total : F) (codes : Assoc F) (acc : Status × F)
      → is_healthy (process_codes fl protocol total codes acc).0
        ≡ is_healthy acc.0 && not (finds bad protocol total codes)
  unfolding process_codes
  process_codes-healthy protocol total [] acc = ground arith
  process_codes-healthy protocol total (c ∷ codes) acc = ground (
    arith,
    process_codes-healthy protocol total codes (next_code fl protocol total c acc),
    next_code-healthy protocol total c acc,
  )

  -- What one protocol makes of the status.
  abbrev after : String × Assoc F → Status × F → Status × F
  after p acc =
      if fl.eq (total_of p.1) (zero_float fl)
      then acc
      else process_codes fl p.0 (total_of p.1) p.1 acc

  after-unhealthy :
      (p : String × Assoc F) (acc : Status × F)
      → is_unhealthy (after p acc).0 ≡ is_unhealthy acc.0 || finds_in is_unhealthy p
  after-unhealthy p acc = elim (Bool-cases (fl.eq (total_of p.1) (zero_float fl))) [
    | inl none_at_all ↦ rw none_at_all (ground arith)
    | inr counted ↦ rw counted (process_codes-unhealthy p.0 (total_of p.1) p.1 acc)
  ]

  after-healthy :
      (p : String × Assoc F) (acc : Status × F)
      → is_healthy (after p acc).0 ≡ is_healthy acc.0 && not (finds_in bad p)
  after-healthy p acc = elim (Bool-cases (fl.eq (total_of p.1) (zero_float fl))) [
    | inl none_at_all ↦ rw none_at_all (ground arith)
    | inr counted ↦ rw counted (process_codes-healthy p.0 (total_of p.1) p.1 acc)
  ]

  pub process_requests-unhealthy :
      (requests : Assoc (Assoc F)) (acc : Status × F)
      → is_unhealthy (process_requests fl requests acc).0
        ≡ is_unhealthy acc.0 || any (finds_in is_unhealthy) requests
  unfolding process_requests
  process_requests-unhealthy [] acc = ground arith
  process_requests-unhealthy (p ∷ requests) acc =
      ground (arith, process_requests-unhealthy requests (after p acc), after-unhealthy p acc)

  pub process_requests-healthy :
      (requests : Assoc (Assoc F)) (acc : Status × F)
      → is_healthy (process_requests fl requests acc).0
        ≡ is_healthy acc.0 && not (any (finds_in bad) requests)
  unfolding process_requests
  process_requests-healthy [] acc = ground arith
  process_requests-healthy (p ∷ requests) acc =
      ground (arith, process_requests-healthy requests (after p acc), after-healthy p acc)
