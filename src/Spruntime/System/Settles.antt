-- ===== src/Spruntime/System/Settles.antt =====
-- When nothing more is read, the handler catches up.
use service_provider_otel_co.Base.{◌≡◌, refl, ap, ◌∙◌, [], ◌∷◌}
use service_provider_otel_co.Kube.Objects.{ObjectKey}
use service_provider_otel_co.Kube.Client.{Runtime, Call}
use service_provider_otel_co.Spruntime.Api.{ServiceProviderApi, ProviderConfigApi}
use service_provider_otel_co.Spruntime.Reconciler.{SpReconciler}
use service_provider_otel_co.Spruntime.ConfigEvents.{Channel}
use service_provider_otel_co.Spruntime.ConfigEvents.Published.{map_event-stores}
use service_provider_otel_co.Spruntime.System.{
  System, after_event, event_handled, started, Steps, here, step,
}
use service_provider_otel_co.Spruntime.System.Reached.{latest, Steps-in_order}

module _ {rt : Runtime} {api : ServiceProviderApi} {pcs : ProviderConfigApi}
    (r : SpReconciler rt api pcs) (get : ObjectKey → Call rt pcs.Config)
    (outside : rt.World → rt.World → Type 0) where
  Steps-trans :
      {s t u : System rt pcs}
      → Steps r get outside s t
      → Steps r get outside t u
      → Steps r get outside s u
  Steps-trans a here = a
  Steps-trans a (step b st) = step (Steps-trans a b) st

  -- All events are handled, and the cache holds what the last of them brought.
  catch_up :
      (es : Channel pcs) (s : System rt pcs)
      → s.channel ≡ es
      → (t : System rt pcs) × Steps r get outside s t
        × (t.channel ≡ [])
        × (t.cache ≡ latest r get es s.cache)
        × (t.last_read ≡ s.last_read)
  catch_up [] s is = (s, here, is, refl, refl)
  catch_up (e ∷ es) s is =
      let (t, ss, empty, cache, last) = catch_up es (after_event r get e es s) refl in
      (
        t,
        Steps-trans (step here (event_handled e es is)) ss,
        empty,
        cache
            ∙ ap (latest r get es) (
                map_event-stores pcs (api.object_kind r.empty_obj) r.onboarding e
                  (record { obj = s.cache; world = s.world })),
        last,
      )

  -- After any steps in any order, the newest event, or the cache if there is none, is what was made of the last
  -- read; and the handler can take all events, after which the channel is empty and the cache holds that.
  pub Steps-settle :
      (w : rt.World) {s : System rt pcs}
      → Steps r get outside (started r get w) s
      → (latest r get s.channel s.cache ≡ s.last_read)
        × (t : System rt pcs) × Steps r get outside s t
        × (t.channel ≡ [])
        × (t.cache ≡ s.last_read)
  Steps-settle w {s} ss =
      let in_order = Steps-in_order r get ss refl in
      let (t, more, empty, cache, last) = catch_up s.channel s refl in
      (in_order, t, more, empty, cache ∙ in_order)
