-- ===== src/Kiali/Tests.antt =====
-- The health of a mesh at concrete replies. Floats are natural numbers of thousandths.
use mathlib.Core.List.{Memᴰ, Permᴰ}
use kube_mcp_server.Base.{
  ℕ, zero, suc, ◌+◌, ◌*◌, ◌/◌, ◌≤◌, String, ◌≡◌, refl, ◌≢◌, ◌↔◌, ◌⊎◌, inl, inr, Bool, true, false,
  Option, none, some, List, [], ◌∷◌, ◌++◌, arith, if◌then◌else◌, eqb, ltb, leb, length, contains,
  All,
}
use kube_mcp_server.Base.Int.{pos, negsuc}
use kube_mcp_server.Kiali.{
  Floats, Status, unhealthy, degraded, not_ready, healthy, unknown, Issue, scaled_to_zero,
  RequestHealth, WorkloadStatus, AppHealth, UnhealthyEntity, ClustersNamespaceHealth,
}
use kube_mcp_server.Kiali.Requests.{merge_health_status, evaluate_request_health, is_unhealthy}
use kube_mcp_server.Kiali.Requests.Worst.{bad}
use kube_mcp_server.Kiali.Requests.Verdict.{HasCode, evaluate_request_health-status}
use kube_mcp_server.Kiali.Entities.{
  evaluate_app_health, evaluate_service_health, evaluate_workload_health,
}
use kube_mcp_server.Kiali.Entities.Replicas.{
  is_down, evaluate_app_health-unhealthy_iff, evaluate_app_health-scaled_last,
}
use kube_mcp_server.Kiali.Ranking.{sort_unhealthy_by_impact}
use kube_mcp_server.Kiali.Ranking.Ranked.{OrderLaws, IsRanked, sort_unhealthy_by_impact-IsRanked}
use kube_mcp_server.Kiali.Summary.Mesh.{first_ten, no_health, compute_health_summary}
use kube_mcp_server.Kiali.Summary.Names.{Distinct, is_named}
use kube_mcp_server.Kiali.Summary.Described.{Counts}
use kube_mcp_server.Kiali.Summary.Counts.{all_unhealthy_in, compute_health_summary-Counts}

abbrev thousandths : ℕ → ℕ → ℕ
thousandths m zero = m * 1000
thousandths m (suc zero) = m * 100
thousandths m (suc (suc d)) = m * 10

abbrev fixed : Floats ℕ
fixed = record {
  literal = thousandths;
  plus = λ x y. x + y;
  times = λ x y. (x * y) / 1000;
  divided = λ x y. (x * 1000) / y;
  lt = ltb;
  le = leb;
  eq = eqb;
}

fixed_laws : OrderLaws fixed
fixed_laws = record {
  lt-asym = λ x y h. ground (arith, h);
  not_lt-trans = λ x y z h k. ground (arith, h, k);
}

-- A tenth of the HTTP requests fails.
abbrev failing : RequestHealth ℕ
failing = record {
  inbound = ("http", ("200", 900_000) ∷ ("503", 100_000) ∷ []) ∷ [];
  outbound = ("grpc", ("0", 5_000) ∷ []) ∷ [];
}

abbrev quiet : RequestHealth ℕ
quiet = record { inbound = []; outbound = [] }

failing_status : evaluate_request_health fixed failing ≡ (unhealthy, 100)
unfolding evaluate_request_health
failing_status = refl

abbrev workload : String → ℕ → ℕ → WorkloadStatus
workload name desired available = record {
  name = name;
  desired_replicas = pos desired;
  current_replicas = pos available;
  available_replicas = pos available;
  synced_proxies = negsuc 0;
}

abbrev two_workloads : WorkloadStatus → AppHealth ℕ
two_workloads last = record { workload_statuses = workload "v1" 3 0 ∷ last ∷ []; requests = quiet }

-- The first workload is down in both; the second is scaled to zero in the first app only.
hidden : (evaluate_app_health fixed (two_workloads (workload "v2" 0 0))).0 ≡ not_ready
unfolding evaluate_app_health evaluate_request_health merge_health_status
hidden = refl

shown : (evaluate_app_health fixed (two_workloads (workload "v2" 1 1))).0 ≡ unhealthy
unfolding evaluate_app_health evaluate_request_health merge_health_status
shown = refl

evaluate_request_health-status_example :
    (((evaluate_request_health fixed failing).0 ≡ unhealthy) ↔ HasCode fixed failing is_unhealthy)
    × (((evaluate_request_health fixed failing).0 ≡ healthy) ↔ ¬ HasCode fixed failing bad)
evaluate_request_health-status_example = evaluate_request_health-status fixed failing

evaluate_app_health-unhealthy_iff_example :
    ((evaluate_app_health fixed (two_workloads (workload "v2" 1 1))).0 ≡ unhealthy) ↔ (
      ((ws : WorkloadStatus) × Memᴰ ws (workload "v1" 3 0 ∷ workload "v2" 1 1 ∷ [])
        × (is_down ws ≡ true))
      ⊎ ((evaluate_request_health fixed quiet).0 ≡ unhealthy))
evaluate_app_health-unhealthy_iff_example =
    evaluate_app_health-unhealthy_iff fixed (two_workloads (workload "v2" 1 1))
      (λ e. ground (arith, e)) (refl, (refl, record {}))

evaluate_app_health-scaled_last_example :
    evaluate_app_health fixed (two_workloads (workload "v2" 0 0))
    ≡ (merge_health_status not_ready (evaluate_request_health fixed quiet).0, scaled_to_zero)
evaluate_app_health-scaled_last_example =
    evaluate_app_health-scaled_last fixed (two_workloads (workload "v2" 0 0))
      (workload "v1" 3 0 ∷ []) (workload "v2" 0 0) refl refl

abbrev entity : String → ℕ → UnhealthyEntity ℕ
entity name rate = record {
  kind = "app";
  namespace = "dev";
  name = name;
  status = unhealthy;
  issue = scaled_to_zero;
  error_rate = rate;
}

abbrev three : List (UnhealthyEntity ℕ)
three = entity "low" 1 ∷ entity "high" 9 ∷ entity "middle" 5 ∷ []

ranked :
    sort_unhealthy_by_impact fixed three ≡ entity "high" 9 ∷ entity "middle" 5 ∷ entity "low" 1 ∷ []
unfolding sort_unhealthy_by_impact
ranked = refl

sort_unhealthy_by_impact-IsRanked_example :
    Permᴰ three (sort_unhealthy_by_impact fixed three)
    × IsRanked fixed (sort_unhealthy_by_impact fixed three)
sort_unhealthy_by_impact-IsRanked_example = sort_unhealthy_by_impact-IsRanked fixed fixed_laws three

abbrev mesh : ClustersNamespaceHealth ℕ
mesh = record {
  app_health = ("dev", ("shop", two_workloads (workload "v2" 1 1)) ∷ []) ∷ [];
  service_health = [];
  workload_health = [];
}

one_unhealthy :
    (compute_health_summary fixed "now" mesh
      (no_health fixed)
      (no_health fixed)
      "10m").entity_counts.apps.unhealthy
    ≡ 1
unfolding compute_health_summary evaluate_app_health evaluate_request_health merge_health_status
    kube_mcp_server.Kiali.Summary.process_entity kube_mcp_server.Base.Assoc.lookup
    kube_mcp_server.Base.Assoc.insert
one_unhealthy = refl

compute_health_summary-Counts_example :
    let summary =
      compute_health_summary fixed "now" mesh (no_health fixed) (no_health fixed) "10m" in
    (names : List String) × Distinct names
    × ((n : String) → contains names n ≡ is_named fixed mesh (no_health fixed) (no_health fixed) n)
    × (summary.namespace_count ≡ length names)
    × Counts (evaluate_app_health fixed) names (mesh.app_health) summary.entity_counts.apps
    × Counts (evaluate_service_health fixed) names [] summary.entity_counts.services
    × Counts (evaluate_workload_health fixed) names [] summary.entity_counts.workloads
    × (summary.top_unhealthy
        ≡ first_ten fixed (
            sort_unhealthy_by_impact fixed
              (all_unhealthy_in fixed mesh (no_health fixed) (no_health fixed) names)))
compute_health_summary-Counts_example =
    compute_health_summary-Counts fixed "now" mesh (no_health fixed) (no_health fixed) "10m"
