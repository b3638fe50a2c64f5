-- ===== src/Entry/Clusters.antt =====
-- cmd/service-provider-otel-collector/main.go: how the program is to reach the other clusters, and which CRDs
-- are for which of them. Durations are in nanoseconds.
use service_provider_otel_co.Base.{String, Bool, true, Option, List, ℤ, pos}
use service_provider_otel_co.Entry.Permissions.{PolicyRule, mcp_permissions}

-- clusteraccess.NewClusterAccessManager, WithInterval and WithTimeout
pub record AccessManager (Cluster : Type 0) : Type 0 where
  pub platform : Cluster
  pub controller_name : String
  pub namespace : String
  pub interval : ℤ
  pub timeout : ℤ

-- clusteraccess.NewClusterAccessReconciler and what is set on it
pub record AccessSetup (Cluster Scheme : Type 0) : Type 0 where
  pub platform : Cluster
  pub controller_name : String
  pub mcp_scheme : Scheme
  pub retry_interval : ℤ
  pub mcp_permissions : List PolicyRule
  pub skips_workload_cluster : Bool

-- crdutil.NewCRDManager and AddCRDLabelToClusterMapping: the label of a CRD, and the cluster that each of its
-- values stands for. A nil cluster is `none`.
pub record CrdManager (Crds Cluster : Type 0) : Type 0 where
  pub label : String
  pub crds : Crds
  pub mapping : List (String × Option Cluster)

abbrev pub ten_seconds : ℤ
ten_seconds = pos 10000000000

abbrev pub access_manager : {Cluster : Type 0} → Cluster → String → AccessManager Cluster
access_manager cluster namespace = record {
  platform = cluster;
  controller_name = "otelcollectorservice.otelcollector.services.openmcp.cloud";
  namespace = namespace;
  interval = ten_seconds;
  timeout = pos 1800000000000;
}

abbrev pub access_setup : {Cluster Scheme : Type 0} → Cluster → Scheme → AccessSetup Cluster Scheme
access_setup cluster scheme = record {
  platform = cluster;
  controller_name = "OtelCollectorService";
  mcp_scheme = scheme;
  retry_interval = ten_seconds;
  mcp_permissions = mcp_permissions;
  skips_workload_cluster = true;
}
