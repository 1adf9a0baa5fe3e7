-- ===== src/Kiali/Summary.antt =====
-- Counting entities by their health, and the status and availability of a namespace and of the mesh
-- (`computeHealthSummary` and what it calls in pkg/kiali/health_calculation.go). The loops over apps, services and workloads differ only in the
-- evaluation, which is a parameter of one definition.
pub mod Mesh
pub mod Described
pub mod Names
pub mod Counts
use kube_mcp_server.Base.{
  ℕ, ◌+◌, ◌/◌, String, Bool, true, false, not, ◌&&◌, ◌||◌, Option, none, some, List, [], ◌∷◌, ◌++◌,
  ◌==◌, if◌then◌else◌, eqb, ltb, length, take, contains, deref,
}
use kube_mcp_server.Base.Assoc.{Assoc, lookup, insert}
use kube_mcp_server.Base.Text.{to_lower, trim_space}
use kube_mcp_server.Kiali.{
  Floats, Status, unhealthy, degraded, not_ready, healthy, unknown, Issue, HealthCounts,
  EntityHealthCounts, NamespaceSummary, UnhealthyEntity, ClustersNamespaceHealth, MeshHealthSummary,
  AppHealth, ServiceHealth, WorkloadHealth,
}
use kube_mcp_server.Kiali.Requests.{zero_float, calculate_error_rate}
use kube_mcp_server.Kiali.Entities.{
  evaluate_app_health, evaluate_service_health, evaluate_workload_health,
}
use kube_mcp_server.Kiali.Ranking.{sort_unhealthy_by_impact}

abbrev pub no_counts : HealthCounts
no_counts = record { total = 0; healthy = 0; degraded = 0; unhealthy = 0; not_ready = 0 }

-- One entity more, under its status.
unfoldable pub tally : Status → HealthCounts → HealthCounts
tally healthy c = record c { total = c.total + 1; healthy = c.healthy + 1 }
tally not_ready c = record c { total = c.total + 1; not_ready = c.not_ready + 1 }
tally degraded c = record c { total = c.total + 1; degraded = c.degraded + 1 }
tally unhealthy c = record c { total = c.total + 1; unhealthy = c.unhealthy + 1 }
tally unknown c = record c { total = c.total + 1 }

-- The counts of a kind in the mesh and in the namespace, the namespace's error rate, and the
-- unhealthy entities so far.
pub record Progress (F : Type 0) : Type 0 where
  pub mesh : HealthCounts
  pub local : HealthCounts
  pub local_rate : F
  pub found : List (UnhealthyEntity F)

abbrev pub note_unhealthy :
    {F : Type 0}
    → String
    → String
    → String
    → F
    → Status × Issue F
    → List (UnhealthyEntity F)
    → List (UnhealthyEntity F)
note_unhealthy kind ns name rate (unhealthy, issue) found =
    found
    ++ (record {
      kind = kind;
      namespace = ns;
      name = name;
      status = unhealthy;
      issue = issue;
      error_rate = rate;
    }
        ∷ [])
note_unhealthy kind ns name rate (degraded, issue) found = found
note_unhealthy kind ns name rate (not_ready, issue) found = found
note_unhealthy kind ns name rate (healthy, issue) found = found
note_unhealthy kind ns name rate (unknown, issue) found = found

-- The number of those; the lists only grow.
module _ {F E : Type 0} (fl : Floats F) (kind : String) (evaluate : E → Status × Issue F)
    (rate : E → F) where
  -- One entity of a namespace.
  unfoldable pub process_entity : String → String × E → Progress F → Progress F
  unfolding tally
  process_entity ns (name, e) p = record {
    mesh = tally (evaluate e).0 p.mesh;
    local = tally (evaluate e).0 p.local;
    local_rate = fl.plus p.local_rate (rate e);
    found = note_unhealthy kind ns name (rate e) (evaluate e) p.found;
  }

  unfoldable pub process_entities : String → Assoc E → Progress F → Progress F
  process_entities ns [] p = p
  process_entities ns (e ∷ es) p = process_entities ns es (process_entity ns e p)

  -- The entities of a namespace, if the map has any.
  abbrev pub process_namespace_entities :
      String → Option (Assoc E) → HealthCounts → F → List (UnhealthyEntity F) → Progress F
  process_namespace_entities ns entities mesh local_rate found =
      process_entities ns (deref entities [])
        (record { mesh = mesh; local = no_counts; local_rate = local_rate; found = found })

-- The keys of a map that the set does not have yet.
unfoldable pub add_names : {A : Type 0} → Assoc A → List String → List String
add_names [] names = names
add_names ((n, x) ∷ m) names =
    if contains names n then add_names m names else add_names m (names ++ (n ∷ []))

unfoldable pub compute_overall_status : EntityHealthCounts → Status
compute_overall_status counts =
    let total = counts.apps.total + counts.services.total + counts.workloads.total in
    let bad = counts.apps.unhealthy + counts.services.unhealthy + counts.workloads.unhealthy in
    let fair = counts.apps.degraded + counts.services.degraded + counts.workloads.degraded in
    if eqb total 0
    then unknown
    else if ltb 0 bad
    then (if ltb (total / 2) bad then unhealthy else degraded)
    else if ltb 0 fair
    then degraded
    else healthy

module _ {F : Type 0} (fl : Floats F) where
  unfoldable pub compute_namespace_status : NamespaceSummary F → Status
  compute_namespace_status ns =
      let total_unhealthy = ns.apps.unhealthy + ns.services.unhealthy + ns.workloads.unhealthy in
      let total = ns.apps.total + ns.services.total + ns.workloads.total in
      if eqb total 0
      then unknown
      else if eqb total_unhealthy 0 && fl.lt ns.error_rate (fl.literal 1 2)
      then healthy
      else if ltb (total / 2) total_unhealthy || fl.lt (fl.literal 5 2) ns.error_rate
      then unhealthy
      else degraded

  -- computeAvailability, on the counts of the three kinds
  unfoldable pub compute_availability : HealthCounts → HealthCounts → HealthCounts → F
  compute_availability a s w =
      let total = a.total + s.total + w.total in
      if eqb total 0
      then fl.literal 100 0
      else fl.times
          (fl.divided
            (fl.plus (fl.literal (a.healthy + s.healthy + w.healthy) 0)
              (fl.times (fl.literal (a.degraded + s.degraded + w.degraded) 0) (fl.literal 5 1)))
            (fl.literal total 0))
          (fl.literal 100 0)

  unfoldable pub compute_total_error_rate : F → Assoc (NamespaceSummary F) → F
  compute_total_error_rate total [] = total
  compute_total_error_rate total ((n, ns) ∷ m) =
      compute_total_error_rate (fl.plus total ns.error_rate) m

  unfoldable pub compute_overall_availability : EntityHealthCounts → F
  unfolding compute_availability
  compute_overall_availability counts =
      compute_availability counts.apps counts.services counts.workloads
