-- ===== src/Kiali/Entities/Replicas.antt =====
-- What the replicas of workloads make of the health of an app
-- (`evaluateAppHealth` of pkg/kiali/health_calculation.go).
use mathlib.Core.List.{Memᴰ}
use kube_mcp_server.Base.{
  ◌≡◌, ◌≢◌, refl, sym, ap, ◌∙◌, ◌↔◌, ◌⊎◌, inl, inr, Bool, true, false, ◌&&◌, ◌||◌, List, [], ◌∷◌,
  ◌++◌, arith, any, All, Bool-cases,
}
use kube_mcp_server.Base.Int.{ltz}
use kube_mcp_server.Base.Members.{any-true_iff}
use kube_mcp_server.Kiali.{
  Floats, Status, unhealthy, not_ready, healthy, Issue, no_issue, scaled_to_zero, WorkloadStatus,
  RequestHealth, AppHealth,
}
use kube_mcp_server.Kiali.Requests.{
  zero_float, is_unhealthy, merge_health_status, evaluate_request_health,
}
use kube_mcp_server.Kiali.Entities.{
  is_zero, check_workload, check_workloads, with_requests, or_error_rate, judge_workloads,
  evaluate_app_health,
}

-- A workload without one available replica of those that it should have.
abbrev pub is_down : WorkloadStatus → Bool
is_down ws = ltz ws.available_replicas ws.desired_replicas && is_zero ws.available_replicas

module _ {F : Type 0} where
  check_workloads-append :
      (pre post : List WorkloadStatus) (acc : Status × Issue F)
      → check_workloads (pre ++ post) acc ≡ check_workloads post (check_workloads pre acc)
  unfolding check_workloads
  check_workloads-append [] post acc = refl
  check_workloads-append (ws ∷ pre) post acc =
      check_workloads-append pre post (check_workload ws acc)

  check_workload-unhealthy :
      (ws : WorkloadStatus) (acc : Status × Issue F)
      → is_zero ws.desired_replicas ≡ false
      → is_unhealthy (check_workload ws acc).0 ≡ is_unhealthy acc.0 || is_down ws
  unfolding check_workload
  check_workload-unhealthy ws acc wanted = rw (wanted, check_workload) (ground arith)

  check_workloads-unhealthy :
      (wss : List WorkloadStatus) (acc : Status × Issue F)
      → All (λ ws. is_zero ws.desired_replicas ≡ false) wss
      → is_unhealthy (check_workloads wss acc).0 ≡ is_unhealthy acc.0 || any is_down wss
  unfolding check_workloads
  check_workloads-unhealthy [] acc all = ground arith
  check_workloads-unhealthy (ws ∷ wss) acc (wanted, all) = ground (
    arith,
    check_workloads-unhealthy wss (check_workload ws acc) all,
    check_workload-unhealthy ws acc wanted,
  )

  check_workloads-scaled :
      (ws : WorkloadStatus) (acc : Status × Issue F)
      → is_zero ws.desired_replicas ≡ true
      → check_workloads (ws ∷ []) acc ≡ (not_ready, scaled_to_zero)
  unfolding check_workloads
  check_workloads-scaled ws acc scaled = rw (scaled, check_workload) refl

merged-unhealthy :
    (a b : Status) → is_unhealthy (merge_health_status a b) ≡ is_unhealthy a || is_unhealthy b
unfolding merge_health_status
merged-unhealthy a b = ground arith

is_unhealthy_iff : (s : Status) → (is_unhealthy s ≡ true) ↔ (s ≡ unhealthy)
is_unhealthy_iff s = (ground arith, ground arith)

module _ {F : Type 0} (fl : Floats F) where
  judge_workloads-unhealthy :
      (requests : RequestHealth F) (wss : List WorkloadStatus)
      → wss ≢ []
      → All (λ ws. is_zero ws.desired_replicas ≡ false) wss
      → is_unhealthy (judge_workloads fl requests wss).0
        ≡ any is_down wss || is_unhealthy (evaluate_request_health fl requests).0
  unfolding judge_workloads
  judge_workloads-unhealthy requests [] some_workload all = absurd (some_workload refl)
  judge_workloads-unhealthy requests (ws ∷ rest) some_workload all =
      let own = check_workloads (ws ∷ rest) (healthy, no_issue) in
      merged-unhealthy own.0 (evaluate_request_health fl requests).0
      ∙ ap (λ b. b || is_unhealthy (evaluate_request_health fl requests).0)
          (check_workloads-unhealthy (ws ∷ rest) (healthy, no_issue) all)

  judge_workloads-last :
      (requests : RequestHealth F) (before : List WorkloadStatus) (ws : WorkloadStatus)
      → judge_workloads fl requests (before ++ (ws ∷ []))
        ≡ with_requests fl requests (check_workloads (before ++ (ws ∷ [])) (healthy, no_issue))
  unfolding judge_workloads
  judge_workloads-last requests [] ws = refl
  judge_workloads-last requests (b ∷ before) ws = refl

  issue_stays : (rate : F) → or_error_rate fl rate scaled_to_zero ≡ scaled_to_zero
  issue_stays rate = elim (Bool-cases (fl.lt (zero_float fl) rate)) [
    | inl positive ↦ rw positive refl
    | inr zero_rate ↦ rw zero_rate refl
  ]

  -- An app none of whose workloads is scaled to zero, and which has a workload, is unhealthy exactly
  -- if one of them has no available replica of those that it should have, or its requests are
  -- unhealthy.
  pub evaluate_app_health-unhealthy_iff :
      (app : AppHealth F)
      → app.workload_statuses ≢ []
      → All (λ ws. is_zero ws.desired_replicas ≡ false) app.workload_statuses
      → ((evaluate_app_health fl app).0 ≡ unhealthy) ↔ (
          ((ws : WorkloadStatus) × Memᴰ ws app.workload_statuses × (is_down ws ≡ true))
          ⊎ ((evaluate_request_health fl app.requests).0 ≡ unhealthy))
  unfolding evaluate_app_health
  evaluate_app_health-unhealthy_iff app some_workload all =
      let found = judge_workloads-unhealthy app.requests app.workload_statuses some_workload all in
      let down = any-true_iff is_down app.workload_statuses in
      let requests = is_unhealthy_iff (evaluate_request_health fl app.requests).0 in
      let final = is_unhealthy_iff (evaluate_app_health fl app).0 in
      (
        λ e. elim (Bool-cases (any is_down app.workload_statuses)) [
          | inl some_down ↦ inl (down.0 some_down)
          | inr none_down ↦ inr (requests.0 (ground (arith, sym found ∙ final.1 e, none_down)))
        ],
        elim [
          | inl some_down ↦ final.0 (found ∙ ground (arith, down.1 some_down))
          | inr bad_requests ↦ final.0 (found ∙ ground (arith, requests.1 bad_requests))
        ],
      )

  -- An app whose last workload is scaled to zero is reported as not ready, with the issue that it is
  -- scaled to zero, whatever the state of the other workloads is, unless its requests are worse.
  pub evaluate_app_health-scaled_last :
      (app : AppHealth F) (before : List WorkloadStatus) (ws : WorkloadStatus)
      → app.workload_statuses ≡ before ++ (ws ∷ [])
      → is_zero ws.desired_replicas ≡ true
      → evaluate_app_health fl app ≡ (
        merge_health_status not_ready (evaluate_request_health fl app.requests).0,
        scaled_to_zero,
      )
  unfolding evaluate_app_health
  evaluate_app_health-scaled_last app before ws e scaled =
      ap (judge_workloads fl app.requests) e
      ∙ judge_workloads-last app.requests before ws
      ∙ ap (with_requests fl app.requests) (
          check_workloads-append before (ws ∷ []) (healthy, no_issue)
          ∙ check_workloads-scaled ws (check_workloads before (healthy, no_issue)) scaled)
      ∙ ap (λ i. (merge_health_status not_ready (evaluate_request_health fl app.requests).0, i))
          (issue_stays (evaluate_request_health fl app.requests).1)
