-- ===== src/Entry/Program/Updates.antt =====
-- What the reconciler that main builds makes of a change of the config (the handler in SetupWithManager of
-- pkg/spruntime/spreconciler.go).
use service_provider_otel_co.Base.{String, ◌≡◌, refl, Bool, Option, some, List, [], Result, ok, err}
use service_provider_otel_co.Kube.Objects.{ObjectKey, GroupVersionKind, no_kind}
use service_provider_otel_co.Kube.Client.{Runtime, Client, Run}
use service_provider_otel_co.Api.Service.{
  OtelCollectorServiceStatus, OtelCollectorService, otel_api,
}
use service_provider_otel_co.Api.Config.{ProviderConfig, otel_configs}
use service_provider_otel_co.Spruntime.Api.{ObjectClient}
use service_provider_otel_co.Spruntime.Builders.{built, built_from}
use service_provider_otel_co.Spruntime.ConfigEvents.{map_event, listed}
use service_provider_otel_co.Entry.Program.{Environment, wire_sp}
use service_provider_otel_co.Entry.Program.Wired.{collector}

module _ {rt : Runtime} (env : Environment rt) (client : rt.Cluster → Client rt)
    (equal : OtelCollectorServiceStatus → OtelCollectorServiceStatus → Bool)
    (objects : rt.Cluster → ObjectClient rt OtelCollectorService) (platform : rt.Cluster)
    (ns : String) (c : rt.Cluster) where
  abbrev handled :
      GroupVersionKind
      → Option ProviderConfig
      → Run rt (Option ProviderConfig)
      → Result rt.Error (List ObjectKey) × Run rt (Option ProviderConfig)
  handled gvk event s = map_event {rt = rt} otel_configs gvk (objects c) event s

  -- The kind by which the handler of main's reconciler lists the objects.
  abbrev pub main_kind : GroupVersionKind
  main_kind =
      (otel_api equal).object_kind (collector env client equal objects platform ns c).empty_obj

  -- Main's reconciler is the collector's, and a list of no kind is refused: every change of the config is
  -- then stored, and no object is enqueued for it. By a kind whose list succeeds, all the objects of the
  -- list would be.
  pub main_events-lost :
      ((w : rt.World) → (e : rt.Error) × (((objects c).list no_kind w).0 ≡ err e))
      → (event : Option ProviderConfig) (s : Run rt (Option ProviderConfig))
      → (gvk : GroupVersionKind) {reqs : List ObjectKey}
      → ((objects c).list gvk s.world).0 ≡ ok reqs
      → (built objects (wire_sp env client equal platform (some c) ns)
          ≡ some (collector env client equal objects platform ns c))
        × ((handled main_kind event s).0 ≡ ok [])
        × ((handled main_kind event s).1.obj ≡ event)
        × ((handled gvk event s).0 ≡ ok reqs)
  unfolding map_event listed wire_sp built_from
  main_events-lost refuses event s gvk found =
      let (e, refused) = refuses s.world in (refl, rw refused refl, rw refused refl, rw found refl)
