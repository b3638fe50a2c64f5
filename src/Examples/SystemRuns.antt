-- ===== src/Examples/SystemRuns.antt =====
-- The two reconcilers together, on the in-memory clusters: the config is read, its event handled, and the object served.
use service_provider_otel_co.Base.{◌≡◌, refl, ◌∙◌, ok, [], some}
use service_provider_otel_co.Kube.Objects.{ObjectKey}
use service_provider_otel_co.Kube.Client.{Call}
use service_provider_otel_co.Api.Config.{ProviderConfig, otel_configs}
use service_provider_otel_co.Spruntime.System.{
  System, Steps, here, step, config_read, event_handled, object_served, started, after_read,
  after_event, loaded,
}
use service_provider_otel_co.Spruntime.System.Reached.{Inv, Steps-Inv, latest}
use service_provider_otel_co.Spruntime.System.Settles.{Steps-settle}
use service_provider_otel_co.Spruntime.ConfigEvents
use service_provider_otel_co.Spruntime.Reconciler.{reconcile}
use service_provider_otel_co.Examples.Cluster.{World, runtime}
use service_provider_otel_co.Examples.Data.{config, world}
use service_provider_otel_co.Examples.Provider.{provider}
use service_provider_otel_co.Examples.ProviderRuns.{IsIntact, provider-GrantedKeeps, request}

abbrev get : ObjectKey → Call runtime ProviderConfig
get req w = (ok config, w)

-- Others leave the platform alone.
abbrev Elsewhere : World → World → Type 0
Elsewhere w w' = w'.platform ≡ w.platform

abbrev first_read : System runtime otel_configs
first_read = after_read provider get request (started provider get world)

-- Read twice, with one event handled.
abbrev second_read : System runtime otel_configs
second_read = after_read provider get request (after_event provider get (some config) [] first_read)

abbrev served : System runtime otel_configs
served = record second_read {
  world = (reconcile (loaded provider get second_read.cache) request second_read.world).1;
}

served-Steps : Steps provider get Elsewhere (started provider get world) served
unfolding ConfigEvents.reconcile ConfigEvents.send_found
served-Steps =
    step
      (step (step (step here (config_read request)) (event_handled (some config) [] refl))
        (config_read request))
      (object_served request)

Steps-Inv_example : Inv provider get IsIntact served
Steps-Inv_example =
    Steps-Inv provider get IsIntact Elsewhere (λ c live. provider-GrantedKeeps c)
      (λ req. record { at = λ w h. h }) (record { at = λ w h. h }) (λ w w' o h. o ∙ h) world refl
      served-Steps

Steps-settle_example :
    (latest provider get served.channel served.cache ≡ served.last_read)
    × (t : System runtime otel_configs) × Steps provider get Elsewhere served t
    × (t.channel ≡ [])
    × (t.cache ≡ served.last_read)
Steps-settle_example = Steps-settle provider get Elsewhere world served-Steps
