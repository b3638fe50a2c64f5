-- ===== src/Controller/Ending/Terminates.antt =====
-- Repeated runs end the deletion.
use service_provider_otel_co.Base.{ℕ, ◌≡◌, Bool, true}
use service_provider_otel_co.Kube.Objects.{ObjectKey}
use service_provider_otel_co.Kube.Client.{Runtime, Client}
use service_provider_otel_co.Kube.Laws.{View}
use service_provider_otel_co.Api.Service.{
  OtelCollectorServiceStatus, OtelCollectorService, otel_api,
}
use service_provider_otel_co.Api.Config.{ProviderConfig, otel_configs}
use service_provider_otel_co.Spruntime.Api.{ClusterAccessProvider, ObjectClient}
use service_provider_otel_co.Spruntime.Reconciler
use service_provider_otel_co.Spruntime.Reconciler.{SpReconciler}
use service_provider_otel_co.Controller.Reconciler.{OtelCollectorServiceReconciler}
use service_provider_otel_co.Controller.Ending.{Ending, provider}
use service_provider_otel_co.Controller.Ending.Revoked.{Waits}

module _ {rt : Runtime} {client : rt.Cluster → Client rt}
    {equal : OtelCollectorServiceStatus → OtelCollectorServiceStatus → Bool}
    {r : OtelCollectorServiceReconciler rt} {onboarding : ObjectClient rt OtelCollectorService}
    {car : ClusterAccessProvider rt} {pc : ProviderConfig} {m : rt.Cluster} {view : View rt}
    {req : ObjectKey} {present connected leaving : ℕ → rt.World → Type 0}
    {released gone : rt.World → Type 0}
    (K : Ending client equal r onboarding car pc m view req present connected leaving released
      gone) where
  abbrev sp : SpReconciler rt (otel_api equal) otel_configs
  sp = provider client equal r onboarding car pc

  -- The object as it is found.
  abbrev InDeletion : ℕ → OtelCollectorService → rt.World → Type 0
  InDeletion n o w = ((otel_api equal).is_deleted o ≡ true) × (o.metadata.key ≡ req) × Waits K n w
