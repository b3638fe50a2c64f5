-- ===== src/Controller/Reconciler.antt =====
-- internal/controller/otelcollectorservice_controller.go: CreateOrUpdate and Delete
use service_provider_otel_co.Base.{
  String, Bool, Option, false, none, some, is_empty, List, ℤ, pos, Result, ok, err, pure, lift,
  ◌>>=◌, ◌>>◌, if◌then◌else◌,
}
use service_provider_otel_co.Kube.Objects.{CtrlResult, LocalObjectReference}
use service_provider_otel_co.Kube.Client.{Runtime, Call, Step, calling, reading, modify, Client}
use service_provider_otel_co.Api.Service.{
  OtelCollectorServiceStatus, OtelCollectorService, otel_api,
}
use service_provider_otel_co.Api.Config.{ProviderConfig}
use service_provider_otel_co.Spruntime.Api.{ClusterContext, ServiceProviderReconciler}
use service_provider_otel_co.Spruntime.Access.{no_requeue}
use service_provider_otel_co.Spruntime.Status.{status_progressing, status_ready, status_terminating}
use service_provider_otel_co.Resources.Namespace.{reconcile_namespace}
use service_provider_otel_co.Resources.PullSecrets.{reconcile_image_pull_secrets}
use service_provider_otel_co.Resources.Prerequisites.{PrerequisiteResult, check_prerequisites}
use service_provider_otel_co.Resources.Deployment.{DeploymentOpts, reconcile_deployment}
use service_provider_otel_co.Resources.Service.{reconcile_service}
use service_provider_otel_co.Resources.Cleanup.{delete_managed_resources}
use service_provider_otel_co.Controller.Resolve.{
  resolve_namespace, resolve_image, resolve_version, resolve_resources,
}

-- 30 seconds
abbrev pub default_requeue_interval : ℤ
default_requeue_interval = pos 30000000000

pub record OtelCollectorServiceReconciler (rt : Runtime) : Type 0 where
  pub onboarding_cluster : Option rt.Cluster
  pub platform_cluster : rt.Cluster
  pub pod_namespace : String

-- `client` is the method `Client` of a cluster, `equal` is `equality.Semantic.DeepEqual`.
module _ {rt : Runtime} (client : rt.Cluster → Client rt)
    (equal : OtelCollectorServiceStatus → OtelCollectorServiceStatus → Bool)
    (r : OtelCollectorServiceReconciler rt) where
  -- `clusterCtx.MCPCluster.Client()`
  abbrev pub mcp_client : ClusterContext rt → Result rt.Error (Client rt)
  mcp_client clusters = elim clusters.mcp_cluster [
    | none ↦ err rt.nil_pointer
    | some c ↦ ok (client c)
  ]

  -- `if len(pc.Spec.ImagePullSecrets) > 0`
  unfoldable pub sync_pull_secrets : Client rt → String → List LocalObjectReference → Call rt Unit
  sync_pull_secrets mcp ns refs =
      if is_empty refs
      then pure tt
      else reconcile_image_pull_secrets mcp (client r.platform_cluster) ns r.pod_namespace refs

  -- The options of the deployment.
  unfoldable pub deployment_opts : OtelCollectorService → ProviderConfig → String → DeploymentOpts
  deployment_opts svcobj pc hash = record {
    image = resolve_image svcobj pc;
    version = resolve_version svcobj pc;
    resources = resolve_resources svcobj pc;
    image_pull_secrets = pc.spec.image_pull_secrets;
    config_hash = hash;
  }

  -- From the reading of the prerequisites to the end.
  unfoldable pub deploy :
      Client rt
      → String
      → ProviderConfig
      → PrerequisiteResult
      → Step rt OtelCollectorService CtrlResult
  deploy mcp ns pc prereq =
      if prereq.ready
      then (do
        opts ← reading (λ svcobj. deployment_opts svcobj pc prereq.config_hash)
        calling (reconcile_deployment mcp ns opts)
        calling (reconcile_service mcp ns)
        modify (status_ready rt (otel_api equal))
        pure no_requeue)
      else do
        modify (status_progressing rt (otel_api equal) "WaitingForPrerequisites" prereq.message)
        pure (record { requeue = false; requeue_after = default_requeue_interval })

  unfoldable pub create_or_update :
      ProviderConfig → ClusterContext rt → Step rt OtelCollectorService CtrlResult
  create_or_update pc clusters = do
    mcp ← lift (mcp_client clusters)
    modify (status_progressing rt (otel_api equal) "Reconciling" "Reconcile in progress")
    ns ← reading (λ svcobj. resolve_namespace svcobj pc)
    calling (reconcile_namespace mcp ns)
    calling (sync_pull_secrets mcp ns pc.spec.image_pull_secrets)
    prereq ← calling (check_prerequisites mcp ns)
    deploy mcp ns pc prereq

  unfoldable pub delete :
      ProviderConfig → ClusterContext rt → Step rt OtelCollectorService CtrlResult
  delete pc clusters = do
    modify (status_terminating rt (otel_api equal))
    ns ← reading (λ obj. resolve_namespace obj pc)
    mcp ← lift (mcp_client clusters)
    calling (delete_managed_resources mcp ns)
    pure no_requeue

  -- The two methods as the generic reconciler calls them.
  abbrev pub otel_reconciler : ServiceProviderReconciler rt OtelCollectorService ProviderConfig
  otel_reconciler = record { create_or_update = create_or_update; delete = delete }
