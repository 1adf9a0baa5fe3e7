-- ===== src/Kiali/Summary/Mesh.antt =====
-- The summary of a mesh: `computeHealthSummary` and `computeMeshHealthSummary` of
-- pkg/kiali/health_calculation.go.
use kube_mcp_server.Base.{
  String, ◌||◌, Option, none, some, List, [], ◌∷◌, ◌==◌, if◌then◌else◌, ltb, length, take, deref,
}
use kube_mcp_server.Base.Assoc.{Assoc, lookup, insert}
use kube_mcp_server.Base.Text.{to_lower, trim_space}
use kube_mcp_server.Kiali.{
  Floats, unknown, EntityHealthCounts, NamespaceSummary, UnhealthyEntity, ClustersNamespaceHealth,
  MeshHealthSummary, AppHealth, ServiceHealth, WorkloadHealth,
}
use kube_mcp_server.Kiali.Requests.{zero_float, calculate_error_rate}
use kube_mcp_server.Kiali.Entities.{
  evaluate_app_health, evaluate_service_health, evaluate_workload_health,
}
use kube_mcp_server.Kiali.Ranking.{sort_unhealthy_by_impact}
use kube_mcp_server.Kiali.Summary.{
  Progress, no_counts, process_entities, process_namespace_entities, add_names,
  compute_namespace_status, compute_availability, compute_overall_status,
  compute_overall_availability, compute_total_error_rate,
}

-- The kind of entity that the query asks for: "app", "service" or "workload".
unfoldable pub health_type : Assoc String → String
unfolding lookup trim_space
health_type params =
    let v = trim_space (deref (lookup "graphType" params) "") in
    if v == ""
    then "app"
    else if to_lower v == "versionedapp"
    then "app"
    else if v == "workload" || v == "service"
    then v
    else "app"

abbrev pub rate_interval_of : Assoc String → String
rate_interval_of params =
    let interval = deref (lookup "rateInterval" params) "" in
    if interval == "" then "10m" else interval

-- What the loop over the namespaces has gathered.
pub record MeshProgress (F : Type 0) : Type 0 where
  pub counts : EntityHealthCounts
  pub summaries : Assoc (NamespaceSummary F)
  pub all_unhealthy : List (UnhealthyEntity F)

module _ {F : Type 0} (fl : Floats F) where
  abbrev pub summarize : Progress F → Progress F → Progress F → NamespaceSummary F
  summarize a s w =
      let availability = compute_availability fl a.local s.local w.local in
      let blank : NamespaceSummary F = record {
        status = unknown;
        availability = availability;
        error_rate = w.local_rate;
        apps = a.local;
        services = s.local;
        workloads = w.local;
      } in
      record blank { status = compute_namespace_status fl blank }

  abbrev pub app_progress : String → Option (Assoc (AppHealth F)) → MeshProgress F → Progress F
  app_progress ns entities st =
      process_namespace_entities fl "app" (evaluate_app_health fl)
        (λ app. calculate_error_rate fl app.requests) ns entities st.counts.apps (zero_float fl)
        st.all_unhealthy

  abbrev pub service_progress :
      String → Option (Assoc (ServiceHealth F)) → MeshProgress F → Progress F → Progress F
  service_progress ns entities st a =
      process_namespace_entities fl "service" (evaluate_service_health fl)
        (λ svc. calculate_error_rate fl svc.requests) ns entities st.counts.services a.local_rate
        a.found

  abbrev pub workload_progress :
      String → Option (Assoc (WorkloadHealth F)) → MeshProgress F → Progress F → Progress F
  workload_progress ns entities st s =
      process_namespace_entities fl "workload" (evaluate_workload_health fl)
        (λ wl. calculate_error_rate fl wl.requests) ns entities st.counts.workloads s.local_rate
        s.found

  abbrev pub collect :
      String → MeshProgress F → Progress F → Progress F → Progress F → MeshProgress F
  collect ns st a s w = record {
    counts = record { apps = a.mesh; services = s.mesh; workloads = w.mesh };
    summaries = insert ns (summarize a s w) st.summaries;
    all_unhealthy = w.found;
  }

  -- The three kinds of entities of one namespace, one after the other.
  unfoldable pub process_namespace :
      ClustersNamespaceHealth F
      → ClustersNamespaceHealth F
      → ClustersNamespaceHealth F
      → String
      → MeshProgress F
      → MeshProgress F
  unfolding process_entities lookup insert
  process_namespace apps services workloads ns st =
      let a = app_progress ns (lookup ns apps.app_health) st in
      let s = service_progress ns (lookup ns services.service_health) st a in
      let w = workload_progress ns (lookup ns workloads.workload_health) st s in collect ns st a s w

  unfoldable pub process_namespaces :
      ClustersNamespaceHealth F
      → ClustersNamespaceHealth F
      → ClustersNamespaceHealth F
      → List String
      → MeshProgress F
      → MeshProgress F
  process_namespaces apps services workloads [] st = st
  process_namespaces apps services workloads (ns ∷ names) st =
      process_namespaces apps services workloads names
        (process_namespace apps services workloads ns st)

  unfoldable pub namespace_names :
      ClustersNamespaceHealth F
      → ClustersNamespaceHealth F
      → ClustersNamespaceHealth F
      → List String
  unfolding add_names
  namespace_names apps services workloads =
      add_names workloads.workload_health
        (add_names services.service_health (add_names apps.app_health []))

  abbrev pub first_ten : List (UnhealthyEntity F) → List (UnhealthyEntity F)
  first_ten ranked = if ltb 10 (length ranked) then take 10 ranked else ranked

  abbrev pub nothing_yet : MeshProgress F
  nothing_yet = record {
    counts = record { apps = no_counts; services = no_counts; workloads = no_counts };
    summaries = [];
    all_unhealthy = [];
  }

  abbrev pub report : String → String → List String → MeshProgress F → MeshHealthSummary F
  report timestamp rate_interval names st = record {
    overall_status = some (compute_overall_status st.counts);
    availability = compute_overall_availability fl st.counts;
    total_error_rate = compute_total_error_rate fl (zero_float fl) st.summaries;
    namespace_count = length names;
    entity_counts = st.counts;
    namespace_summary = st.summaries;
    top_unhealthy = first_ten (sort_unhealthy_by_impact fl st.all_unhealthy);
    timestamp = timestamp;
    rate_interval = rate_interval;
  }

  unfoldable pub compute_health_summary :
      String
      → ClustersNamespaceHealth F
      → ClustersNamespaceHealth F
      → ClustersNamespaceHealth F
      → String
      → MeshHealthSummary F
  unfolding process_namespaces process_namespace namespace_names
  compute_health_summary timestamp apps services workloads rate_interval =
      let names = namespace_names apps services workloads in
      report timestamp rate_interval names
        (process_namespaces apps services workloads names nothing_yet)

  abbrev pub no_health : ClustersNamespaceHealth F
  no_health = record { app_health = []; service_health = []; workload_health = [] }

  abbrev pub summary_of :
      String → String → Assoc String → Option (ClustersNamespaceHealth F) → MeshHealthSummary F
  summary_of timestamp kind params none = record {
    overall_status = none;
    availability = zero_float fl;
    total_error_rate = zero_float fl;
    namespace_count = 0;
    entity_counts = nothing_yet.counts;
    namespace_summary = [];
    top_unhealthy = [];
    timestamp = timestamp;
    rate_interval = rate_interval_of params;
  }
  summary_of timestamp kind params (some health) =
      if kind == "service"
      then compute_health_summary timestamp no_health health no_health (rate_interval_of params)
      else if kind == "workload"
      then compute_health_summary timestamp no_health no_health health (rate_interval_of params)
      else compute_health_summary timestamp health no_health no_health (rate_interval_of params)

  -- The reply's JSON is parsed by a parameter, which may fail.
  unfoldable pub compute_mesh_health_summary :
      (String → Option (ClustersNamespaceHealth F))
      → String
      → String
      → Assoc String
      → MeshHealthSummary F
  unfolding health_type compute_health_summary
  compute_mesh_health_summary parse timestamp health_data params =
      summary_of timestamp (health_type params) params (parse health_data)
