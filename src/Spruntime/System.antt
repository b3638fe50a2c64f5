-- ===== src/Spruntime/System.antt =====
-- pkg/spruntime as a whole: the two reconcilers, the channel between them and the cached config, which runs of
-- SPReconciler load from the atomic pointer. Each runs when the manager calls it, in any order.
pub mod Reached
pub mod Settles
use service_provider_otel_co.Base.{◌≡◌, Option, none, [], ◌∷◌}
use service_provider_otel_co.Kube.Objects.{ObjectKey}
use service_provider_otel_co.Kube.Client.{Runtime, Call}
use service_provider_otel_co.Spruntime.Api.{ServiceProviderApi, ProviderConfigApi}
use service_provider_otel_co.Spruntime.Reconciler.{SpReconciler, reconcile}
use service_provider_otel_co.Spruntime.ConfigEvents
use service_provider_otel_co.Spruntime.ConfigEvents.{Channel, map_event}
use service_provider_otel_co.Spruntime.ConfigEvents.Published.{live}

-- `last_read` is no state of the program: what the config's reconciler made of its last read.
pub record System (rt : Runtime) (pcs : ProviderConfigApi) : Type 0 where
  pub world : rt.World
  pub channel : Channel pcs
  pub cache : Option pcs.Config
  pub last_read : Option pcs.Config

module _ {rt : Runtime} {api : ServiceProviderApi} {pcs : ProviderConfigApi}
    (r : SpReconciler rt api pcs) (get : ObjectKey → Call rt pcs.Config) where
  -- The reconciler with the config that it loads.
  abbrev pub loaded : Option pcs.Config → SpReconciler rt api pcs
  loaded c = record r { provider_config = c }

  abbrev pub after_read : ObjectKey → System rt pcs → System rt pcs
  after_read req s =
      let t =
        (ConfigEvents.reconcile {rt = rt} pcs get req
          (record { obj = s.channel; world = s.world })).1 in
      record {
        world = t.world;
        channel = t.obj;
        cache = s.cache;
        last_read = live pcs (get req s.world).0;
      }

  abbrev pub after_event : Option pcs.Config → Channel pcs → System rt pcs → System rt pcs
  after_event e rest s =
      let t =
        (map_event {rt = rt} pcs (api.object_kind r.empty_obj) r.onboarding e
          (record { obj = s.cache; world = s.world })).1 in
      record { world = t.world; channel = rest; cache = t.obj; last_read = s.last_read }

  -- `outside` holds of what users and other programs do.
  pub data Step (outside : rt.World → rt.World → Type 0) (s : System rt pcs)
      : System rt pcs → Type 0 where
    config_read : (req : ObjectKey) → Step outside s (after_read req s)
    event_handled :
        (e : Option pcs.Config) (rest : Channel pcs)
        → s.channel ≡ e ∷ rest
        → Step outside s (after_event e rest s)
    object_served :
        (req : ObjectKey)
        → Step outside s (record s { world = (reconcile (loaded s.cache) req s.world).1 })
    world_changed : (w : rt.World) → outside s.world w → Step outside s (record s { world = w })

  -- The program starts with nothing read.
  abbrev pub started : rt.World → System rt pcs
  started w = record { world = w; channel = []; cache = none; last_read = none }

  pub data Steps (outside : rt.World → rt.World → Type 0) (s : System rt pcs)
      : System rt pcs → Type 0 where
    here : Steps outside s s
    step : {t u : System rt pcs} → Steps outside s t → Step outside t u → Steps outside s u
