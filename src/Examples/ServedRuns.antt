-- ===== src/Examples/ServedRuns.antt =====
-- A run of the reconciler that main sets up, on the in-memory clusters.
use service_provider_otel_co.Spruntime.Reconciler
use service_provider_otel_co.Controller.Served.{Prepared, Deployed}
use service_provider_otel_co.Examples.Cluster.{World, mcp_site, platform_site, client_at}
use service_provider_otel_co.Examples.Lawful.{
  client_at-IsLawful, mcp-Ignores_platform, platform-get_frame,
}
use service_provider_otel_co.Examples.Serving.{client_at-Serves}
use service_provider_otel_co.Examples.Data.{svcobj, config, equal, reconciler}
use service_provider_otel_co.Examples.Provider.{access, onboarding}

abbrev IsPrepared : World → Type 0
IsPrepared =
    Prepared client_at equal reconciler mcp_site (client_at-IsLawful mcp_site)
      (client_at-IsLawful platform_site) mcp-Ignores_platform platform-get_frame
      (client_at-Serves mcp_site) (client_at-Serves platform_site) onboarding access svcobj config

abbrev IsRunning : World → Type 0
IsRunning =
    Deployed client_at equal reconciler mcp_site (client_at-IsLawful mcp_site)
      (client_at-IsLawful platform_site) mcp-Ignores_platform platform-get_frame
      (client_at-Serves mcp_site) (client_at-Serves platform_site) onboarding access svcobj config
