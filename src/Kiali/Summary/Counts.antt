-- ===== src/Kiali/Summary/Counts.antt =====
-- What the summary of a mesh counts and lists (`computeHealthSummary` of
-- pkg/kiali/health_calculation.go), against a description without accumulators.
use kube_mcp_server.Base.{length, contains, refl, String, ◌≡◌, ap, ◌∙◌, List, [], ◌∷◌, ◌++◌, arith}
use kube_mcp_server.Base.Assoc.{lookup}
use kube_mcp_server.Kiali.{
  Floats, UnhealthyEntity, ClustersNamespaceHealth, AppHealth, ServiceHealth, WorkloadHealth,
}
use kube_mcp_server.Kiali.Requests.{zero_float, calculate_error_rate}
use kube_mcp_server.Kiali.Entities.{
  evaluate_app_health, evaluate_service_health, evaluate_workload_health,
}
use kube_mcp_server.Kiali.Ranking.{sort_unhealthy_by_impact}
use kube_mcp_server.Kiali.Summary.{no_counts}
use kube_mcp_server.Kiali.Summary.Mesh.{
  MeshProgress, app_progress, service_progress, process_namespace, process_namespaces,
  namespace_names, nothing_yet, first_ten, compute_health_summary,
}
use kube_mcp_server.Kiali.Summary.Names.{
  Distinct, is_named, namespace_names-Distinct, namespace_names-contains,
}
use kube_mcp_server.Kiali.Summary.Described.{
  Counts, Sums, Sums-next, Sums-Counts, entities_in, unhealthy_in, process_entities-Adds,
  append_assoc, append_nil,
}

module _ {F : Type 0} (fl : Floats F) where
  abbrev app_rate : AppHealth F → F
  app_rate app = calculate_error_rate fl app.requests

  abbrev service_rate : ServiceHealth F → F
  service_rate svc = calculate_error_rate fl svc.requests

  abbrev workload_rate : WorkloadHealth F → F
  workload_rate wl = calculate_error_rate fl wl.requests

  -- The unhealthy entities of namespaces, in the order of the loops.
  abbrev pub all_unhealthy_in :
      (a s w : ClustersNamespaceHealth F) → List String → List (UnhealthyEntity F)
  all_unhealthy_in a s w [] = []
  all_unhealthy_in a s w (ns ∷ names) =
      unhealthy_in fl "app" (evaluate_app_health fl) app_rate ns (entities_in ns a.app_health)
      ++ (unhealthy_in fl "service" (evaluate_service_health fl) service_rate ns
            (entities_in ns s.service_health)
          ++ (unhealthy_in fl "workload" (evaluate_workload_health fl) workload_rate ns
                (entities_in ns w.workload_health)
              ++ all_unhealthy_in a s w names))

  -- What the loop over the namespaces makes of what it has gathered before.
  abbrev Gathers :
      (a s w : ClustersNamespaceHealth F) → List String → MeshProgress F → MeshProgress F → Type 0
  Gathers a s w names st after =
      Sums (evaluate_app_health fl) names a.app_health st.counts.apps after.counts.apps
      × Sums (evaluate_service_health fl) names s.service_health st.counts.services
          after.counts.services
      × Sums (evaluate_workload_health fl) names w.workload_health st.counts.workloads
          after.counts.workloads
      × (after.all_unhealthy ≡ st.all_unhealthy ++ all_unhealthy_in a s w names)

  process_namespaces-Gathers :
      (a s w : ClustersNamespaceHealth F) (names : List String) (st : MeshProgress F)
      → Gathers a s w names st (process_namespaces fl a s w names st)
  unfolding process_namespaces process_namespace
  process_namespaces-Gathers a s w [] st =
      (ground arith, ground arith, ground arith, ground (arith, append_nil st.all_unhealthy))
  process_namespaces-Gathers a s w (ns ∷ names) st =
      let pa = app_progress fl ns (lookup ns a.app_health) st in
      let ps = service_progress fl ns (lookup ns s.service_health) st pa in
      let next = process_namespace fl a s w ns st in
      let after = process_namespaces fl a s w names next in
      let (apps, found_apps) =
        process_entities-Adds fl "app" (evaluate_app_health fl) app_rate ns
          (entities_in ns a.app_health)
          (record {
            mesh = st.counts.apps;
            local = no_counts;
            local_rate = zero_float fl;
            found = st.all_unhealthy;
          }) in
      let (services, found_services) =
        process_entities-Adds fl "service" (evaluate_service_health fl) service_rate ns
          (entities_in ns s.service_health)
          (record {
            mesh = st.counts.services;
            local = no_counts;
            local_rate = pa.local_rate;
            found = pa.found;
          }) in
      let (workloads, found_workloads) =
        process_entities-Adds fl "workload" (evaluate_workload_health fl) workload_rate ns
          (entities_in ns w.workload_health)
          (record {
            mesh = st.counts.workloads;
            local = no_counts;
            local_rate = ps.local_rate;
            found = ps.found;
          }) in
      let (ka, ks, kw, kf) = process_namespaces-Gathers a s w names next in
      (
        Sums-next (evaluate_app_health fl) ns names a.app_health st.counts.apps next.counts.apps
            after.counts.apps apps ka,
        Sums-next (evaluate_service_health fl) ns names s.service_health st.counts.services
            next.counts.services after.counts.services services ks,
        Sums-next (evaluate_workload_health fl) ns names w.workload_health st.counts.workloads
            next.counts.workloads after.counts.workloads workloads kw,
        kf
            ∙ chained st.all_unhealthy pa.found ps.found next.all_unhealthy _ _ _
                (all_unhealthy_in a s w names) found_apps found_services found_workloads,
      )
    where
      chained :
          (f0 f1 f2 f3 xs ys zs rest : List (UnhealthyEntity F))
          → f1 ≡ f0 ++ xs
          → f2 ≡ f1 ++ ys
          → f3 ≡ f2 ++ zs
          → f3 ++ rest ≡ f0 ++ (xs ++ (ys ++ (zs ++ rest)))
      chained f0 f1 f2 f3 xs ys zs rest h k l =
          ap (λ f. f ++ rest) l
          ∙ append_assoc f2 zs rest
          ∙ ap (λ f. f ++ (zs ++ rest)) k
          ∙ append_assoc f1 ys (zs ++ rest)
          ∙ ap (λ f. f ++ (ys ++ (zs ++ rest))) h
          ∙ append_assoc f0 xs (ys ++ (zs ++ rest))

  -- The counts of apps, services and workloads in the summary of a mesh are, status by status, the
  -- numbers of the entities that are evaluated to it in the namespaces that are visited, and the total
  -- counts all of them; the list of unhealthy entities is made of exactly those of these entities that
  -- are evaluated as unhealthy, each with its kind, namespace, name, issue and error rate, ranked by
  -- impact and cut after ten. The namespaces visited are those that one of the three health maps has
  -- as a key, each once.
  pub compute_health_summary-Counts :
      (timestamp : String) (a s w : ClustersNamespaceHealth F) (interval : String)
      → let summary = compute_health_summary fl timestamp a s w interval in
        (names : List String) × Distinct names
        × ((n : String) → contains names n ≡ is_named fl a s w n)
        × (summary.namespace_count ≡ length names)
        × Counts (evaluate_app_health fl) names a.app_health summary.entity_counts.apps
        × Counts (evaluate_service_health fl) names s.service_health summary.entity_counts.services
        × Counts
            (evaluate_workload_health fl)
            names
            w.workload_health
            summary.entity_counts.workloads
        × (summary.top_unhealthy
            ≡ first_ten fl (sort_unhealthy_by_impact fl (all_unhealthy_in a s w names)))
  unfolding compute_health_summary
  compute_health_summary-Counts timestamp a s w interval =
      let names = namespace_names fl a s w in
      let (apps, services, workloads, found) =
        process_namespaces-Gathers a s w names (nothing_yet fl) in
      (
        names,
        namespace_names-Distinct fl a s w,
        namespace_names-contains fl a s w,
        refl,
        Sums-Counts (evaluate_app_health fl) names a.app_health _ apps,
        Sums-Counts (evaluate_service_health fl) names s.service_health _ services,
        Sums-Counts (evaluate_workload_health fl) names w.workload_health _ workloads,
        ap (λ l. first_ten fl (sort_unhealthy_by_impact fl l)) found,
      )
