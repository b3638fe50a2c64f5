-- ===== src/Controller/Apart.antt =====
-- The namespace, the check and the deployment leave another cluster alone.
use service_provider_otel_co.Base.{String, ◌<>◌, ◌≡◌, Bool, arith}
use service_provider_otel_co.Kube.Objects.{ObjectKey}
use service_provider_otel_co.Kube.Client.{
  Runtime, Kind, namespaces, config_maps, secrets, deployments, services, Client, Run,
}
use service_provider_otel_co.Kube.Laws.{View, Ignores}
use service_provider_otel_co.Api.Service.{OtelCollectorServiceStatus, OtelCollectorService}
use service_provider_otel_co.Api.Config.{ProviderConfig}
use service_provider_otel_co.Resources.Constants.{config_map_name, secret_name}
use service_provider_otel_co.Resources.Namespace.{reconcile_namespace}
use service_provider_otel_co.Resources.Namespace.Exists.{key_of_namespace}
use service_provider_otel_co.Resources.Prerequisites.{
  PrerequisiteResult, optional, read, check_prerequisites,
}
use service_provider_otel_co.Resources.Deployment.{
  DeploymentOpts, set_deployment, new_deployment, reconcile_deployment,
}
use service_provider_otel_co.Resources.Service.{set_service, new_service, reconcile_service}
use service_provider_otel_co.Controller.Reconciler.{
  OtelCollectorServiceReconciler, deployment_opts, deploy,
}

module _ {rt : Runtime} {c : Client rt} {view : View rt} (apart : Ignores c view) where
  pub namespace_apart :
      (ns : String) (w : rt.World) (j : Kind) (b : ObjectKey)
      → view (reconcile_namespace c ns w).1 j b ≡ view w j b
  unfolding reconcile_namespace
  namespace_apart ns w j b = ground (
    arith,
    apart.ignores_get namespaces (key_of_namespace ns) w j b,
    apart.ignores_create namespaces (record { name = ns })
        (c.get namespaces (key_of_namespace ns) w).1 j b,
  )

  read_apart :
      (ns : String) (k : Kind) (name message : String) (w : rt.World) (j : Kind) (b : ObjectKey)
      → view (read c ns k name message w).1 j b ≡ view w j b
  unfolding read optional
  read_apart ns k name message w j b =
      ground (arith, apart.ignores_get k (record { namespace = ns; name = name }) w j b)

  pub check_prerequisites_apart :
      (ns : String) (w : rt.World) (j : Kind) (b : ObjectKey)
      → view (check_prerequisites c ns w).1 j b ≡ view w j b
  unfolding check_prerequisites
  check_prerequisites_apart ns w j b =
      let m : String = "checking ConfigMap " <> config_map_name in
      ground (
        arith,
        read_apart ns config_maps config_map_name m w j b,
        read_apart ns secrets secret_name ("checking Secret " <> secret_name)
            (read c ns config_maps config_map_name m w).1 j b,
      )

  deployment_apart :
      (ns : String) (opts : DeploymentOpts) (w : rt.World) (j : Kind) (b : ObjectKey)
      → view (reconcile_deployment c ns opts w).1 j b ≡ view w j b
  unfolding reconcile_deployment
  deployment_apart ns opts w j b =
      apart.ignores_create_or_update deployments (new_deployment ns) (set_deployment opts) w j b

  service_apart :
      (ns : String) (w : rt.World) (j : Kind) (b : ObjectKey)
      → view (reconcile_service c ns w).1 j b ≡ view w j b
  unfolding reconcile_service
  service_apart ns w j b =
      apart.ignores_create_or_update services (new_service ns) set_service w j b

  pub deploy_apart :
      (client : rt.Cluster → Client rt)
      (equal : OtelCollectorServiceStatus → OtelCollectorServiceStatus → Bool)
      (r : OtelCollectorServiceReconciler rt) (ns : String) (pc : ProviderConfig)
      (p : PrerequisiteResult) (s : Run rt OtelCollectorService) (j : Kind) (b : ObjectKey)
      → view (deploy client equal r c ns pc p s).1.world j b ≡ view s.world j b
  unfolding deploy
  deploy_apart client equal r ns pc p s j b =
      let opts = deployment_opts client equal r s.obj pc p.config_hash in
      ground (
        arith,
        deployment_apart ns opts s.world j b,
        service_apart ns (reconcile_deployment c ns opts s.world).1 j b,
      )
