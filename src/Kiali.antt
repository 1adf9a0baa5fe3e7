-- ===== src/Kiali.antt =====
-- The health of a service mesh: the types of pkg/kiali/types.go and the statuses of
-- pkg/kiali/health_calculation.go. The statuses are the five constants of the code. An issue is the
-- data that its text is made of.
pub mod Requests
pub mod Entities
pub mod Ranking
pub mod Summary
mod Tests
use kube_mcp_server.Base.{ℕ, String, Bool, Option, List, ◌∷◌, []}
use kube_mcp_server.Base.Assoc.{Assoc}
use kube_mcp_server.Base.Int.{ℤ}

-- float64: its arithmetic, its tests, and a literal as a whole number and its decimal places.
pub record Floats (F : Type 0) : Type 0 where
  pub literal : ℕ → ℕ → F
  pub plus : F → F → F
  pub times : F → F → F
  pub divided : F → F → F
  pub lt : F → F → Bool
  pub le : F → F → Bool
  pub eq : F → F → Bool

pub data Status : Type 0 where
  unhealthy : Status
  degraded : Status
  not_ready : Status
  healthy : Status
  unknown : Status

pub data Issue (F : Type 0) : Type 0 where
  no_issue : Issue F
  no_workloads : Issue F
  scaled_to_zero : Issue F
  replicas_available : ℤ → ℤ → Issue F
  proxies_synced : ℤ → ℤ → Issue F
  error_rate : F → Issue F

-- Requests by protocol and code.
pub record RequestHealth (F : Type 0) : Type 0 where
  pub inbound : Assoc (Assoc F)
  pub outbound : Assoc (Assoc F)

pub record WorkloadStatus : Type 0 where
  pub name : String
  pub desired_replicas : ℤ
  pub current_replicas : ℤ
  pub available_replicas : ℤ
  pub synced_proxies : ℤ

pub record AppHealth (F : Type 0) : Type 0 where
  pub workload_statuses : List WorkloadStatus
  pub requests : RequestHealth F

pub record ServiceHealth (F : Type 0) : Type 0 where
  pub requests : RequestHealth F

pub record WorkloadHealth (F : Type 0) : Type 0 where
  pub workload_status : Option WorkloadStatus
  pub requests : RequestHealth F

pub record HealthCounts : Type 0 where
  pub total : ℕ
  pub healthy : ℕ
  pub degraded : ℕ
  pub unhealthy : ℕ
  pub not_ready : ℕ

pub record EntityHealthCounts : Type 0 where
  pub apps : HealthCounts
  pub services : HealthCounts
  pub workloads : HealthCounts

pub record NamespaceSummary (F : Type 0) : Type 0 where
  pub status : Status
  pub availability : F
  pub error_rate : F
  pub apps : HealthCounts
  pub services : HealthCounts
  pub workloads : HealthCounts

pub record UnhealthyEntity (F : Type 0) : Type 0 where
  pub kind : String
  pub namespace : String
  pub name : String
  pub status : Status
  pub issue : Issue F
  pub error_rate : F

-- The three maps of a reply, from namespaces to names to health.
pub record ClustersNamespaceHealth (F : Type 0) : Type 0 where
  pub app_health : Assoc (Assoc (AppHealth F))
  pub service_health : Assoc (Assoc (ServiceHealth F))
  pub workload_health : Assoc (Assoc (WorkloadHealth F))

-- The status is `none` where it is the empty text.
pub record MeshHealthSummary (F : Type 0) : Type 0 where
  pub overall_status : Option Status
  pub availability : F
  pub total_error_rate : F
  pub namespace_count : ℕ
  pub entity_counts : EntityHealthCounts
  pub namespace_summary : Assoc (NamespaceSummary F)
  pub top_unhealthy : List (UnhealthyEntity F)
  pub timestamp : String
  pub rate_interval : String
