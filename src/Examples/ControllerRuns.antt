-- ===== src/Examples/ControllerRuns.antt =====
-- The controller's theorems on the in-memory clusters.
use service_provider_otel_co.Base.{◌≡◌, refl, ok, false, none}
use service_provider_otel_co.Kube.Client.{Kind, deployments, services}
use service_provider_otel_co.Kube.Objects.{ObjectKey, CtrlResult}
use service_provider_otel_co.Kube.Laws.{same}
use service_provider_otel_co.Api.Service.{otel_api}
use service_provider_otel_co.Spruntime.Access.{no_requeue}
use service_provider_otel_co.Spruntime.Status.{status_progressing, status_terminating}
use service_provider_otel_co.Resources.Namespace.{reconcile_namespace}
use service_provider_otel_co.Resources.PullSecrets.{sync_secret, reconcile_image_pull_secrets}
use service_provider_otel_co.Resources.Prerequisites.{check_prerequisites, read, verdict}
use service_provider_otel_co.Resources.Deployment.{reconcile_deployment, set_deployment}
use service_provider_otel_co.Resources.Service.{reconcile_service, set_service}
use service_provider_otel_co.Resources.Cleanup.Removed.{deployment_key, service_key}
use service_provider_otel_co.Controller.Resolve.{resolve_namespace}
use service_provider_otel_co.Controller.Reconciler.{
  sync_pull_secrets, deploy, create_or_update, delete,
}
use service_provider_otel_co.Controller.Success.{IsDeployed, create_or_update-IsDeployed}
use service_provider_otel_co.Controller.Outcome.{Ends, create_or_update-Ends}
use service_provider_otel_co.Controller.Returns.{HasPrerequisites, create_or_update-returns}
use service_provider_otel_co.Examples.Serving.{client_at-Serves}
use service_provider_otel_co.Controller.Removal.{delete-removes, delete-returns}
use service_provider_otel_co.Examples.Cluster.{mcp_site, platform_site, runtime, view_at, client_at}
use service_provider_otel_co.Examples.Lawful.{
  client_at-IsLawful, mcp-Ignores_platform, platform-get_frame,
}
use service_provider_otel_co.Examples.Data.{
  config, context, equal, reconciler, start, svcobj, user_config, user_secret, world,
}

pub create_or_update-ok :
    (create_or_update client_at equal reconciler config context start).0 ≡ ok no_requeue
unfolding create_or_update reconcile_namespace client_at sync_pull_secrets
    reconcile_image_pull_secrets sync_secret resolve_namespace status_progressing
    check_prerequisites read deploy verdict reconcile_deployment set_deployment reconcile_service
    set_service
create_or_update-ok = refl

create_or_update-IsDeployed_example :
    IsDeployed client_at equal reconciler mcp_site
      (client_at-IsLawful mcp_site)
      (client_at-IsLawful platform_site)
      mcp-Ignores_platform
      platform-get_frame
      svcobj
      config
      (create_or_update client_at equal reconciler config context start).1.world
create_or_update-IsDeployed_example =
    create_or_update-IsDeployed client_at equal reconciler mcp_site (client_at-IsLawful mcp_site)
      (client_at-IsLawful platform_site) mcp-Ignores_platform platform-get_frame config context refl
      start create_or_update-ok

create_or_update-Ends_example :
    let run = create_or_update client_at equal reconciler config context start in
    Ends client_at equal reconciler
      (status_progressing runtime (otel_api equal) "Reconciling" "Reconcile in progress" svcobj)
      run.0
      run.1.obj
create_or_update-Ends_example =
    create_or_update-Ends client_at equal reconciler config context mcp_site refl start

delete-removes_example :
    let run = delete client_at equal reconciler config context start in
    let ns = resolve_namespace svcobj config in
    (run.1.obj ≡ status_terminating runtime (otel_api equal) svcobj)
    × ((j : Kind) (b : ObjectKey)
        → same deployments (deployment_key ns) j b ≡ false
        → same services (service_key ns) j b ≡ false
        → view_at mcp_site run.1.world j b ≡ view_at mcp_site start.world j b)
    × ((res : CtrlResult)
        → run.0 ≡ ok res
        → (res ≡ no_requeue)
          × (view_at mcp_site run.1.world deployments (deployment_key ns) ≡ none)
          × (view_at mcp_site run.1.world services (service_key ns) ≡ none))
delete-removes_example =
    delete-removes client_at equal reconciler (client_at-IsLawful mcp_site) config context refl
      start

-- What the user and the platform have to provide is there.
start-HasPrerequisites :
    HasPrerequisites client_at equal reconciler mcp_site
      (client_at-IsLawful mcp_site)
      (client_at-IsLawful platform_site)
      mcp-Ignores_platform
      platform-get_frame
      (client_at-Serves mcp_site)
      (client_at-Serves platform_site)
      (resolve_namespace svcobj config)
      config.spec.image_pull_secrets
      world
unfolding resolve_namespace
start-HasPrerequisites = record {
  cm = user_config;
  secret = user_secret;
  has_config = refl;
  has_secret = refl;
  sources = (refl, tt);
  distinct = (refl, tt);
}

create_or_update-returns_example :
    (create_or_update client_at equal reconciler config context start).0 ≡ ok no_requeue
create_or_update-returns_example =
    create_or_update-returns client_at equal reconciler mcp_site (client_at-IsLawful mcp_site)
      (client_at-IsLawful platform_site) mcp-Ignores_platform platform-get_frame
      (client_at-Serves mcp_site) (client_at-Serves platform_site) config context refl start
      start-HasPrerequisites

delete-returns_example :
    let run = delete client_at equal reconciler config context start in
    let ns = resolve_namespace svcobj config in
    (run.0 ≡ ok no_requeue)
    × (view_at mcp_site run.1.world deployments (deployment_key ns) ≡ none)
    × (view_at mcp_site run.1.world services (service_key ns) ≡ none)
delete-returns_example =
    delete-returns client_at equal reconciler (client_at-IsLawful mcp_site) config context refl
      (client_at-Serves mcp_site) start
