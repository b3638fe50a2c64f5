-- ===== src/Examples/StableRuns.antt =====
-- Two runs of the controller, one after the other, on the in-memory clusters.
use service_provider_otel_co.Base.{◌≡◌, refl, ok}
use service_provider_otel_co.Kube.Client.{Run}
use service_provider_otel_co.Kube.Changes.{Unchanged}
use service_provider_otel_co.Api.Service.{OtelCollectorService}
use service_provider_otel_co.Spruntime.Access.{no_requeue}
use service_provider_otel_co.Spruntime.Status.{status_progressing}
use service_provider_otel_co.Resources.Namespace.{reconcile_namespace}
use service_provider_otel_co.Resources.PullSecrets.{sync_secret, reconcile_image_pull_secrets}
use service_provider_otel_co.Resources.Prerequisites.{check_prerequisites, read, verdict}
use service_provider_otel_co.Resources.Deployment.{reconcile_deployment, set_deployment}
use service_provider_otel_co.Resources.Service.{reconcile_service, set_service}
use service_provider_otel_co.Controller.Resolve.{resolve_namespace}
use service_provider_otel_co.Controller.Reconciler.{sync_pull_secrets, deploy, create_or_update}
use service_provider_otel_co.Controller.Stable.{create_or_update_stable}
use service_provider_otel_co.Examples.Cluster.{mcp_site, platform_site, runtime, view_at, client_at}
use service_provider_otel_co.Examples.Lawful.{
  client_at-IsLawful, mcp-Ignores_platform, platform-get_frame,
}
use service_provider_otel_co.Examples.Data.{config, context, equal, reconciler, start, svcobj}
use service_provider_otel_co.Examples.ControllerRuns.{create_or_update-ok}

abbrev deployed : Run runtime OtelCollectorService
deployed = (create_or_update client_at equal reconciler config context start).1

-- The object as it was read again.
abbrev second_start : Run runtime OtelCollectorService
second_start = record { obj = svcobj; world = deployed.world }

second-ok :
    (create_or_update client_at equal reconciler config context second_start).0 ≡ ok no_requeue
unfolding create_or_update reconcile_namespace client_at sync_pull_secrets
    reconcile_image_pull_secrets sync_secret resolve_namespace status_progressing
    check_prerequisites read deploy verdict reconcile_deployment set_deployment reconcile_service
    set_service
second-ok = refl

create_or_update_stable_example :
    Unchanged runtime
      (view_at mcp_site)
      deployed.world
      (create_or_update client_at equal reconciler config context second_start).1.world
create_or_update_stable_example =
    create_or_update_stable client_at equal reconciler mcp_site (client_at-IsLawful mcp_site)
      (client_at-IsLawful platform_site) mcp-Ignores_platform platform-get_frame config context refl
      start svcobj refl create_or_update-ok second-ok
