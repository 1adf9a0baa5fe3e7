-- ===== src/Kiali/Requests/Verdict.antt =====
-- The status of requests as a statement about their codes, in whatever order the maps are iterated
-- (pkg/kiali/health_calculation.go).
use mathlib.Core.List.{Memᴰ}
use kube_mcp_server.Base.{
  String, ◌≡◌, ◌↔◌, ◌⊎◌, inl, inr, Bool, true, false, ◌&&◌, ◌||◌, arith, any, Bool-cases,
}
use kube_mcp_server.Base.Assoc.{Assoc}
use kube_mcp_server.Base.Members.{any-true_iff}
use kube_mcp_server.Kiali.{Floats, Status, unhealthy, healthy, RequestHealth}
use kube_mcp_server.Kiali.Requests.{
  is_error_code, is_unhealthy, zero_float, evaluate_request_health, process_requests,
}
use kube_mcp_server.Kiali.Requests.Worst.{
  total_of, status_of, finds_in, bad, process_requests-unhealthy, process_requests-healthy,
}

-- A code of some protocol with requests, inbound or outbound, that is an error and whose share of the
-- protocol's requests has a status that passes a test.
pub record HasCode {F : Type 0} (fl : Floats F) (req : RequestHealth F) (test : Status → Bool)
    : Type 0 where
  pub entry : String × Assoc F
  pub in_requests : Memᴰ entry req.inbound ⊎ Memᴰ entry req.outbound
  pub requested : fl.eq (total_of fl entry.1) (zero_float fl) ≡ false
  pub code : String × F
  pub in_codes : Memᴰ code entry.1
  pub is_error : is_error_code entry.0 code.0 ≡ true
  pub judged : test (status_of fl entry.0 (total_of fl entry.1) code) ≡ true

module _ {F : Type 0} (fl : Floats F) where
  finds_in-HasCode :
      (req : RequestHealth F) (test : Status → Bool) (p : String × Assoc F)
      → Memᴰ p req.inbound ⊎ Memᴰ p req.outbound
      → finds_in fl test p ≡ true
      → HasCode fl req test
  finds_in-HasCode req test p member found =
      let (c, dc, ok) =
        (any-true_iff (λ c. is_error_code p.0 c.0 && test (status_of fl p.0 (total_of fl p.1) c))
            p.1).0
          (ground (arith, found)) in
      record {
        entry = p;
        in_requests = member;
        requested = ground (arith, found);
        code = c;
        in_codes = dc;
        is_error = ground (arith, ok);
        judged = ground (arith, ok);
      }

  finds_in_of_HasCode :
      (req : RequestHealth F) (test : Status → Bool) (h : HasCode fl req test)
      → finds_in fl test h.entry ≡ true
  finds_in_of_HasCode req test h =
      let found =
        (any-true_iff
            (λ c.
              is_error_code h.entry.0 c.0
              && test (status_of fl h.entry.0 (total_of fl h.entry.1) c))
            h.entry.1).1
          (h.code, h.in_codes, ground (arith, h.is_error, h.judged)) in
      ground (arith, found, h.requested)

  -- Either map finds such a code.
  anywhere_iff :
      (req : RequestHealth F) (test : Status → Bool)
      → (any (finds_in fl test) req.inbound || any (finds_in fl test) req.outbound ≡ true)
        ↔ HasCode fl req test
  anywhere_iff req test = (
    λ h. elim (Bool-cases (any (finds_in fl test) req.inbound)) [
      | inl inside ↦
          let (p, d, ok) = (any-true_iff (finds_in fl test) req.inbound).0 inside in
          finds_in-HasCode req test p (inl d) ok
      | inr outside ↦
          let (p, d, ok) =
            (any-true_iff (finds_in fl test) req.outbound).0 (ground (arith, h, outside)) in
          finds_in-HasCode req test p (inr d) ok
    ],
    λ h. elim h.in_requests [
      | inl d ↦
          let found =
            (any-true_iff (finds_in fl test) req.inbound).1
              (h.entry, d, finds_in_of_HasCode req test h) in
          ground (arith, found)
      | inr d ↦
          let found =
            (any-true_iff (finds_in fl test) req.outbound).1
              (h.entry, d, finds_in_of_HasCode req test h) in
          ground (arith, found)
    ],
  )

  -- The health of requests is unhealthy exactly if some error code, inbound or outbound, has an
  -- unhealthy share of its protocol's requests, and it is healthy exactly if no error code has an
  -- unhealthy or a degraded share.
  pub evaluate_request_health-status :
      (req : RequestHealth F)
      → (((evaluate_request_health fl req).0 ≡ unhealthy) ↔ HasCode fl req is_unhealthy)
        × (((evaluate_request_health fl req).0 ≡ healthy) ↔ ¬ HasCode fl req bad)
  unfolding evaluate_request_health
  evaluate_request_health-status req =
      let first = process_requests fl req.inbound (healthy, zero_float fl) in
      let u_in = process_requests-unhealthy fl req.inbound (healthy, zero_float fl) in
      let u_out = process_requests-unhealthy fl req.outbound first in
      let h_in = process_requests-healthy fl req.inbound (healthy, zero_float fl) in
      let h_out = process_requests-healthy fl req.outbound first in
      (
        (
          λ e. (anywhere_iff req is_unhealthy).0 (ground (arith, e, u_in, u_out)),
          λ h.
              let found = (anywhere_iff req is_unhealthy).1 h in ground (arith, u_in, u_out, found),
        ),
        (
          λ e h. let found = (anywhere_iff req bad).1 h in ground (arith, e, h_in, h_out, found),
          λ no_code.
              elim (Bool-cases
                (any (finds_in fl bad) req.inbound || any (finds_in fl bad) req.outbound)) [
                  | inl found ↦ absurd (no_code ((anywhere_iff req bad).0 found))
                  | inr clear ↦ ground (arith, h_in, h_out, clear)
                ],
        ),
      )
