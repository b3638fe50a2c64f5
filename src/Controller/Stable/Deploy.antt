-- ===== src/Controller/Stable/Deploy.antt =====
-- The last part of CreateOrUpdate (internal/controller/otelcollectorservice_controller.go) on what it has written.
use service_provider_otel_co.Base.{String, ◌≡◌, sym, ap, ◌∙◌, Bool, true, some, arith, ok}
use service_provider_otel_co.Kube.Objects.{Deployment, Service, CtrlResult}
use service_provider_otel_co.Kube.Client.{Runtime, deployments, services, Client, Run}
use service_provider_otel_co.Kube.Laws.{existing_or, View, IsLawful}
use service_provider_otel_co.Kube.Changes.{Unchanged, Unchanged-at}
use service_provider_otel_co.Api.Service.{OtelCollectorServiceStatus, OtelCollectorService}
use service_provider_otel_co.Api.Config.{ProviderConfig}
use service_provider_otel_co.Resources.Prerequisites.{PrerequisiteResult}
use service_provider_otel_co.Resources.Deployment.{
  DeploymentOpts, set_deployment, new_deployment, reconcile_deployment,
}
use service_provider_otel_co.Resources.Deployment.Desired.{
  deployment_key, set_deployment_idem, reconcile_deployment-stores, reconcile_deployment_frame,
}
use service_provider_otel_co.Resources.Service.{set_service, new_service, reconcile_service}
use service_provider_otel_co.Resources.Service.Routes.{
  service_key, reconcile_service-stores, reconcile_service_frame,
}
use service_provider_otel_co.Controller.Reconciler.{
  OtelCollectorServiceReconciler, deployment_opts, deploy,
}

module _ {rt : Runtime} {c : Client rt} {view : View rt} (L : IsLawful c view) (ns : String) where
  -- A deployment with the desired state, and a service, are written as they are.
  deployment_stable :
      (opts : DeploymentOpts) (old : Deployment) (w : rt.World)
      → view w deployments (deployment_key ns) ≡ some (set_deployment opts old)
      → (reconcile_deployment c ns opts w).0 ≡ ok tt
      → Unchanged rt view w (reconcile_deployment c ns opts w).1
  deployment_stable opts old w stored h =
      Unchanged-at rt view w (reconcile_deployment c ns opts w).1 deployments (deployment_key ns)
        (reconcile_deployment-stores L ns opts w h
          ∙ ap (λ d. some (set_deployment opts (existing_or deployments d (new_deployment ns))))
              stored
          ∙ ap some (set_deployment_idem opts old)
          ∙ sym stored)
        (reconcile_deployment_frame L ns opts w)

  service_stable :
      (old : Service) (w : rt.World)
      → view w services (service_key ns) ≡ some (set_service old)
      → (reconcile_service c ns w).0 ≡ ok tt
      → Unchanged rt view w (reconcile_service c ns w).1
  unfolding set_service
  service_stable old w stored h =
      Unchanged-at rt view w (reconcile_service c ns w).1 services (service_key ns)
        (reconcile_service-stores L ns w h
          ∙ ap (λ s. some (set_service (existing_or services s (new_service ns)))) stored
          ∙ sym stored)
        (reconcile_service_frame L ns w)

  module _ (client : rt.Cluster → Client rt)
      (equal : OtelCollectorServiceStatus → OtelCollectorServiceStatus → Bool)
      (r : OtelCollectorServiceReconciler rt) (pc : ProviderConfig) (p : PrerequisiteResult)
      (s : Run rt OtelCollectorService) where
    abbrev opts : DeploymentOpts
    opts = deployment_opts client equal r s.obj pc p.config_hash

    -- The calls of the last part, where it returns no error.
    deploy-calls :
        {res : CtrlResult}
        → p.ready ≡ true
        → (deploy client equal r c ns pc p s).0 ≡ ok res
        → ((reconcile_deployment c ns opts s.world).0 ≡ ok tt)
          × ((reconcile_service c ns (reconcile_deployment c ns opts s.world).1).0 ≡ ok tt)
          × ((deploy client equal r c ns pc p s).1.world
              ≡ (reconcile_service c ns (reconcile_deployment c ns opts s.world).1).1)
    unfolding deploy
    deploy-calls ready h = ground arith

    pub deploy_stable :
        {res : CtrlResult} (old : Deployment) (old_service : Service)
        → p.ready ≡ true
        → (deploy client equal r c ns pc p s).0 ≡ ok res
        → view s.world deployments (deployment_key ns) ≡ some (set_deployment opts old)
        → view s.world services (service_key ns) ≡ some (set_service old_service)
        → Unchanged rt view s.world (deploy client equal r c ns pc p s).1.world
    deploy_stable old old_service ready h deployment service =
        let (first, second, world) = deploy-calls ready h in
        let same = deployment_stable opts old s.world deployment first in
        let w₁ : rt.World = (reconcile_deployment c ns opts s.world).1 in
        rw world (λ j b.
          service_stable old_service w₁ (same services (service_key ns) ∙ service) second j b
          ∙ same j b)
