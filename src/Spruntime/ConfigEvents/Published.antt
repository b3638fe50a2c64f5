-- ===== src/Spruntime/ConfigEvents/Published.antt =====
-- What the cached config is, once the events of the config's reconciler are handled.
use service_provider_otel_co.Base.{
  ◌≡◌, refl, arith, Option, none, some, List, [], ◌∷◌, ◌++◌, Result, ok, err, if◌then◌else◌,
}
use service_provider_otel_co.Kube.Objects.{ObjectKey, GroupVersionKind}
use service_provider_otel_co.Kube.Client.{Runtime, Call, Run}
use service_provider_otel_co.Spruntime.Api.{ProviderConfigApi, ObjectClient}
use service_provider_otel_co.Spruntime.ConfigEvents.{
  Channel, reconcile, map_event, listed, send_found,
}

-- The config that a read found, unless it is being deleted.
abbrev pub live : {E : Type 0} (pcs : ProviderConfigApi) → Result E pcs.Config → Option pcs.Config
live pcs (err e) = none
live pcs (ok pc) = if pcs.is_deleted pc then none else some pc

module _ {rt : Runtime} (pcs : ProviderConfigApi) where
  open pcs use {Config}

  module _ {T : Type 0} (gvk : GroupVersionKind) (onboarding : ObjectClient rt T) where
    -- The handler takes the events off the channel in the order they were sent.
    abbrev pub handle_all : Channel pcs → Run rt (Option Config) → Run rt (Option Config)
    handle_all [] s = s
    handle_all (obj ∷ sent) s = handle_all sent (map_event pcs gvk onboarding obj s).1

    pub map_event-stores :
        (obj : Option Config) (s : Run rt (Option Config))
        → (map_event pcs gvk onboarding obj s).1.obj ≡ obj
    unfolding map_event listed
    map_event-stores obj s = stores (onboarding.list gvk s.world).0 _
      where
        stores :
            (found : Result rt.Error (List ObjectKey)) (t : Run rt (Option Config))
            → (listed pcs found t).1.obj ≡ t.obj
        stores (err e) t = refl
        stores (ok reqs) t = refl

    handle_all-last :
        (sent : Channel pcs) (n : Option Config) (s : Run rt (Option Config))
        → (handle_all (sent ++ n ∷ []) s).obj ≡ n
    handle_all-last [] n s = map_event-stores n s
    handle_all-last (obj ∷ sent) n s = handle_all-last sent n _

    pub reconcile-sends :
        (get : ObjectKey → Call rt Config) (req : ObjectKey) (s : Run rt (Channel pcs))
        → (reconcile pcs get req s).1.obj ≡ s.obj ++ live pcs (get req s.world).0 ∷ []
    unfolding reconcile send_found
    reconcile-sends get req s = sends (get req s.world).0 _
      where
        sends :
            (found : Result rt.Error Config) (t : Run rt (Channel pcs))
            → (send_found pcs found t).1.obj ≡ t.obj ++ live pcs found ∷ []
        sends (err e) t = ground arith
        sends (ok pc) t = ground arith

    -- Whatever was on the channel and in the cache before: when the events are handled after a run of
    -- the config's reconciler, the cache holds the config that the run read, and nothing where the read
    -- failed or the config is being deleted.
    pub reconcile_published :
        (get : ObjectKey → Call rt Config) (req : ObjectKey) (s : Run rt (Channel pcs))
        (cache : Run rt (Option Config))
        → (handle_all (reconcile pcs get req s).1.obj cache).obj ≡ live pcs (get req s.world).0
    reconcile_published get req s cache =
        rw (reconcile-sends get req s) (handle_all-last s.obj _ cache)
