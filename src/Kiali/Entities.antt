-- ===== src/Kiali/Entities.antt =====
-- The health of apps, services and workloads: `evaluateAppHealth`, `evaluateServiceHealth` and
-- `evaluateWorkloadHealth` of pkg/kiali/health_calculation.go.
pub mod Replicas
use kube_mcp_server.Base.{
  String, Bool, true, false, not, ◌&&◌, Option, none, some, List, [], ◌∷◌, if◌then◌else◌, is_none,
}
use kube_mcp_server.Base.Int.{ℤ, pos, negsuc, ltz}
use kube_mcp_server.Kiali.{
  Floats, Status, unhealthy, degraded, not_ready, healthy, unknown, Issue, no_issue, no_workloads,
  scaled_to_zero, replicas_available, proxies_synced, error_rate, RequestHealth, WorkloadStatus,
  AppHealth, ServiceHealth, WorkloadHealth,
}
use kube_mcp_server.Kiali.Requests.{
  is_unhealthy, is_healthy, merge_health_status, zero_float, evaluate_request_health,
  has_any_requests,
}

abbrev pub is_zero : ℤ → Bool
is_zero n = not (ltz n (pos 0)) && not (ltz (pos 0) n)

module _ {F : Type 0} where
  abbrev pub is_empty : Issue F → Bool
  is_empty no_issue = true
  is_empty no_workloads = false
  is_empty scaled_to_zero = false
  is_empty (replicas_available a d) = false
  is_empty (proxies_synced s a) = false
  is_empty (error_rate r) = false

  -- The tests of the replicas in the loop over an app's workloads.
  abbrev pub check_replicas : WorkloadStatus → Status × Issue F → Status × Issue F
  check_replicas ws (status, issue) =
      if ltz ws.available_replicas ws.desired_replicas
      then (
        (if is_zero ws.available_replicas
            then unhealthy
            else if not (is_unhealthy status)
            then degraded
            else status),
        replicas_available ws.available_replicas ws.desired_replicas,
      )
      else (status, issue)

  abbrev pub check_proxies : WorkloadStatus → Status × Issue F → Status × Issue F
  check_proxies ws (status, issue) =
      if not (ltz ws.synced_proxies (pos 0)) && ltz ws.synced_proxies ws.available_replicas
      then (
        (if is_healthy status then degraded else status),
        (if is_empty issue then proxies_synced ws.synced_proxies ws.available_replicas else issue),
      )
      else (status, issue)

  -- One round of that loop.
  unfoldable pub check_workload : WorkloadStatus → Status × Issue F → Status × Issue F
  check_workload ws acc =
      if is_zero ws.desired_replicas
      then (not_ready, scaled_to_zero)
      else check_proxies ws (check_replicas ws acc)

  unfoldable pub check_workloads : List WorkloadStatus → Status × Issue F → Status × Issue F
  unfolding check_workload
  check_workloads [] acc = acc
  check_workloads (ws ∷ rest) acc = check_workloads rest (check_workload ws acc)

module _ {F : Type 0} (fl : Floats F) where
  -- The error rate is the issue if there is no other.
  abbrev pub or_error_rate : F → Issue F → Issue F
  or_error_rate rate issue =
      if fl.lt (zero_float fl) rate && is_empty issue then error_rate rate else issue

  -- The worst of the status and the requests' status, with the issue.
  abbrev pub with_requests : RequestHealth F → Status × Issue F → Status × Issue F
  with_requests requests (status, issue) =
      let (request_status, rate) = evaluate_request_health fl requests in
      (merge_health_status status request_status, or_error_rate rate issue)

  unfoldable pub judge_workloads : RequestHealth F → List WorkloadStatus → Status × Issue F
  unfolding check_workloads
  judge_workloads requests [] = (unknown, no_workloads)
  judge_workloads requests (ws ∷ rest) =
      with_requests requests (check_workloads (ws ∷ rest) (healthy, no_issue))

  unfoldable pub evaluate_app_health : AppHealth F → Status × Issue F
  unfolding judge_workloads
  evaluate_app_health app = judge_workloads app.requests app.workload_statuses

  unfoldable pub evaluate_service_health : ServiceHealth F → Status × Issue F
  unfolding has_any_requests evaluate_request_health
  evaluate_service_health svc =
      if not (has_any_requests fl svc.requests)
      then (unknown, no_issue)
      else let (status, rate) = evaluate_request_health fl svc.requests in
        (status, or_error_rate rate no_issue)

  -- A workload's own replicas, tested once.
  unfoldable pub check_own_replicas : Option WorkloadStatus → Status × Issue F
  check_own_replicas none = (healthy, no_issue)
  check_own_replicas (some ws) = check_proxies ws (
      if is_zero ws.desired_replicas
      then (not_ready, scaled_to_zero)
      else check_replicas ws (healthy, no_issue))

  unfoldable pub evaluate_workload_health : WorkloadHealth F → Status × Issue F
  unfolding check_own_replicas has_any_requests merge_health_status evaluate_request_health
  evaluate_workload_health wl =
      if not (has_any_requests fl wl.requests) && is_none wl.workload_status
      then (unknown, no_issue)
      else with_requests wl.requests (check_own_replicas wl.workload_status)
