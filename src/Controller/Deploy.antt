-- ===== src/Controller/Deploy.antt =====
-- The last part of CreateOrUpdate: the deployment and the service.
use service_provider_otel_co.Base.{String, ◌≡◌, refl, Bool, true, false, some, arith, Result, ok}
use service_provider_otel_co.Kube.Objects.{ObjectKey, CtrlResult}
use service_provider_otel_co.Kube.Client.{Runtime, Kind, deployments, services, Client, Run}
use service_provider_otel_co.Kube.Laws.{same, View, existing_or, IsLawful}
use service_provider_otel_co.Api.Service.{
  OtelCollectorServiceStatus, OtelCollectorService, otel_api,
}
use service_provider_otel_co.Api.Config.{ProviderConfig}
use service_provider_otel_co.Spruntime.Access.{no_requeue}
use service_provider_otel_co.Spruntime.Status.{status_ready}
use service_provider_otel_co.Resources.Prerequisites.{PrerequisiteResult}
use service_provider_otel_co.Resources.Deployment.{
  set_deployment, new_deployment, reconcile_deployment,
}
use service_provider_otel_co.Resources.Deployment.Desired.{
  deployment_key, reconcile_deployment-stores, reconcile_deployment_frame,
}
use service_provider_otel_co.Resources.Service.{set_service, new_service}
use service_provider_otel_co.Resources.Service.Routes.{
  service_key, reconcile_service-stores, reconcile_service_frame,
}
use service_provider_otel_co.Controller.Reconciler.{
  OtelCollectorServiceReconciler, deployment_opts, deploy,
}

module _ {rt : Runtime} (client : rt.Cluster → Client rt)
    (equal : OtelCollectorServiceStatus → OtelCollectorServiceStatus → Bool)
    (r : OtelCollectorServiceReconciler rt) {c : Client rt} {view : View rt} (L : IsLawful c view)
    (ns : String) (pc : ProviderConfig) (p : PrerequisiteResult)
    (s : Run rt OtelCollectorService) where
  abbrev after : Result rt.Error CtrlResult × Run rt OtelCollectorService
  after = deploy client equal r c ns pc p s

  pub deploy_frame :
      (j : Kind) (b : ObjectKey)
      → same deployments (deployment_key ns) j b ≡ false
      → same services (service_key ns) j b ≡ false
      → view after.1.world j b ≡ view s.world j b
  unfolding deploy
  deploy_frame j b hd hs =
      let opts = deployment_opts client equal r s.obj pc p.config_hash in
      ground (
        arith,
        reconcile_deployment_frame L ns opts s.world j b hd,
        reconcile_service_frame L ns (reconcile_deployment c ns opts s.world).1 j b hs,
      )

  -- What the deployment and the service are once `deploy` has gone through.
  pub record Stored : Type 0 where
    pub was_ready : p.ready ≡ true
    pub deployment :
        view after.1.world deployments (deployment_key ns)
        ≡ some (
            set_deployment (deployment_opts client equal r s.obj pc p.config_hash) (
              existing_or deployments
                (view s.world deployments (deployment_key ns))
                (new_deployment ns)))
    pub service :
        view after.1.world services (service_key ns)
        ≡ some (
            set_service
              (existing_or services (view s.world services (service_key ns)) (new_service ns)))
    pub status : after.1.obj ≡ status_ready rt (otel_api equal) s.obj

  pub deploy-Stored : after.0 ≡ ok no_requeue → Stored
  unfolding deploy
  deploy-Stored h =
      let opts = deployment_opts client equal r s.obj pc p.config_hash in
      let w₁ = (reconcile_deployment c ns opts s.world).1 in
      ground (
        arith,
        reconcile_deployment-stores L ns opts s.world,
        reconcile_deployment_frame L ns opts s.world services (service_key ns) refl,
        reconcile_service-stores L ns w₁,
        reconcile_service_frame L ns w₁ deployments (deployment_key ns) refl,
      )
