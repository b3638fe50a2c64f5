-- ===== src/Controller/Provider.antt =====
-- The generic reconciler that main sets up (cmd/service-provider-otel-collector/main.go): its domain is the
-- collector's controller, and it has no workload clusters.
use service_provider_otel_co.Base.{Bool, false, Option}
use service_provider_otel_co.Kube.Client.{Runtime, Client}
use service_provider_otel_co.Api.Service.{
  OtelCollectorServiceStatus, OtelCollectorService, empty_service, otel_api,
}
use service_provider_otel_co.Api.Config.{ProviderConfig, otel_configs}
use service_provider_otel_co.Spruntime.Api.{ClusterAccessProvider, ObjectClient}
use service_provider_otel_co.Spruntime.Reconciler.{SpReconciler}
use service_provider_otel_co.Controller.Reconciler.{OtelCollectorServiceReconciler, otel_reconciler}

abbrev pub otel_provider :
    {rt : Runtime}
    → (rt.Cluster → Client rt)
    → (equal : OtelCollectorServiceStatus → OtelCollectorServiceStatus → Bool)
    → OtelCollectorServiceReconciler rt
    → ObjectClient rt OtelCollectorService
    → ClusterAccessProvider rt
    → Option ProviderConfig
    → SpReconciler rt (otel_api equal) otel_configs
otel_provider client equal r onboarding car config = record {
  onboarding = onboarding;
  cluster_access = car;
  service_provider = otel_reconciler client equal r;
  provider_config = config;
  with_workload_cluster = false;
  empty_obj = empty_service;
}
