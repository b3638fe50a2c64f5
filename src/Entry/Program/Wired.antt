-- ===== src/Entry/Program/Wired.antt =====
-- The reconciler that main builds (cmd/service-provider-otel-collector/main.go), with an onboarding cluster.
use service_provider_otel_co.Base.{String, Bool, Option, none, some}
use service_provider_otel_co.Kube.Client.{Runtime, Client}
use service_provider_otel_co.Api.Service.{
  OtelCollectorServiceStatus, OtelCollectorService, otel_api,
}
use service_provider_otel_co.Api.Config.{otel_configs}
use service_provider_otel_co.Spruntime.Api.{ObjectClient}
use service_provider_otel_co.Spruntime.Builders.{built}
use service_provider_otel_co.Spruntime.Reconciler.{SpReconciler}
use service_provider_otel_co.Controller.Provider.{otel_provider}
use service_provider_otel_co.Entry.Clusters.{access_setup}
use service_provider_otel_co.Entry.Program.{Environment, wire_sp}

module _ {rt : Runtime} (env : Environment rt) (client : rt.Cluster → Client rt)
    (equal : OtelCollectorServiceStatus → OtelCollectorServiceStatus → Bool)
    (objects : rt.Cluster → ObjectClient rt OtelCollectorService) (platform : rt.Cluster)
    (ns : String) where
  abbrev pub built_sp : Option rt.Cluster → Option (SpReconciler rt (otel_api equal) otel_configs)
  built_sp onboarding = built objects (wire_sp env client equal platform onboarding ns)

  abbrev pub collector : rt.Cluster → SpReconciler rt (otel_api equal) otel_configs
  collector c =
      otel_provider client equal
        (record { onboarding_cluster = some c; platform_cluster = platform; pod_namespace = ns })
        (objects c) (env.access_reconciler (access_setup platform env.schemes.mcp)) none
