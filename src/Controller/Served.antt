-- ===== src/Controller/Served.antt =====
-- A run of the generic reconciler with the collector's controller as its domain, on clusters that answer.
use service_provider_otel_co.Base.{◌≡◌, Bool, false, none, some, Result, ok, try, Keeps, ◌>>=◌}
use service_provider_otel_co.Kube.Objects.{ObjectKey, CtrlResult, AccessRequest}
use service_provider_otel_co.Kube.Client.{Runtime, Kind, Client, Run, calling}
use service_provider_otel_co.Kube.Laws.{View, IsLawful, Ignores, Serves}
use service_provider_otel_co.Api.Service.{
  OtelCollectorServiceStatus, OtelCollectorService, otel_api, finalizer,
}
use service_provider_otel_co.Api.Config.{ProviderConfig, otel_configs}
use service_provider_otel_co.Spruntime.Api.{ClusterAccessProvider, ObjectClient}
use service_provider_otel_co.Spruntime.Access.Frame.{AccessKeeps}
use service_provider_otel_co.Spruntime.Reconciler
use service_provider_otel_co.Spruntime.Reconciler.{SpReconciler}
use service_provider_otel_co.Spruntime.Reconciler.Order.{In}
use service_provider_otel_co.Controller.Resolve.{resolve_namespace}
use service_provider_otel_co.Controller.Reconciler.{
  OtelCollectorServiceReconciler, create_or_update,
}
use service_provider_otel_co.Controller.Provider.{otel_provider}
use service_provider_otel_co.Controller.Success.{IsDeployed}
use service_provider_otel_co.Controller.Returns.{HasPrerequisites}
use service_provider_otel_co.Spruntime.Access.{no_requeue, clusters}

-- The access provider has set the access up.
pub record Connects {rt : Runtime} (car : ClusterAccessProvider rt) (m : rt.Cluster) : Type 0 where
  pub reconciled : (req : ObjectKey) (w : rt.World) → (car.reconcile req w).0 ≡ ok no_requeue
  pub connected : (req : ObjectKey) (w : rt.World) → (car.mcp_cluster req w).0 ≡ ok (some m)
  pub request : AccessRequest
  pub requested :
      (req : ObjectKey) (w : rt.World) → (car.mcp_access_request req w).0 ≡ (some request, none)

module _ {rt : Runtime} (client : rt.Cluster → Client rt)
    (equal : OtelCollectorServiceStatus → OtelCollectorServiceStatus → Bool)
    (r : OtelCollectorServiceReconciler rt) (m : rt.Cluster) {mcp_view platform_view : View rt}
    (L : IsLawful (client m) mcp_view) (P : IsLawful (client r.platform_cluster) platform_view)
    (apart : Ignores (client m) platform_view)
    (only_read : (k : Kind) (a : ObjectKey) (w : rt.World) (j : Kind) (b : ObjectKey)
      → mcp_view ((client r.platform_cluster).get k a w).1 j b ≡ mcp_view w j b)
    (S : Serves (client m) mcp_view) (Q : Serves (client r.platform_cluster) platform_view)
    (onboarding : ObjectClient rt OtelCollectorService) (car : ClusterAccessProvider rt)
    (o : OtelCollectorService) (pc : ProviderConfig) where
  abbrev pub provider : SpReconciler rt (otel_api equal) otel_configs
  provider = otel_provider client equal r onboarding car (some pc)

  -- The object with the finalizer.
  abbrev pub adopt : OtelCollectorService → OtelCollectorService
  adopt x = record x {
    metadata = record x.metadata {
      finalizers = rt.add_finalizer x.metadata.finalizers (finalizer x);
    };
  }

  abbrev pub Prepared : rt.World → Type 0
  Prepared =
      HasPrerequisites client equal r m L P apart only_read S Q (resolve_namespace (adopt o) pc)
        pc.spec.image_pull_secrets

  abbrev pub Deployed : rt.World → Type 0
  Deployed = IsDeployed client equal r m L P apart only_read (adopt o) pc

  -- The onboarding cluster stores the object with its finalizer; and neither it nor
  -- the access provider takes the prerequisites away, or the collector once it runs.
  pub record Hosts (req : ObjectKey) : Type 0 where
    pub connects : Connects car m
    pub access : AccessKeeps car Prepared
    pub found_keeps : Keeps Prepared (onboarding.get req)
    pub stored :
        (f : OtelCollectorService → OtelCollectorService) (s : Run rt OtelCollectorService)
        → ((onboarding.create_or_update f s).0 ≡ ok tt)
          × ((onboarding.create_or_update f s).1.obj ≡ f s.obj)
    pub stored_keeps :
        (f : OtelCollectorService → OtelCollectorService)
        → Keeps (In rt OtelCollectorService Prepared) (onboarding.create_or_update f)
    pub patch_keeps : Keeps (In rt OtelCollectorService Deployed) (onboarding.patch_status o)

  module _ {req : ObjectKey} (H : Hosts req) where
    -- What `create_or_update` of the generic reconciler leaves.
    abbrev Ends : Result rt.Error CtrlResult × Run rt OtelCollectorService → Type 0
    Ends run = (run.0 ≡ ok no_requeue) × Deployed run.1.world

    -- `createOrUpdate` from the setup of the clusters on.
    abbrev with_clusters :
        Run rt OtelCollectorService → Result rt.Error CtrlResult × Run rt OtelCollectorService
    with_clusters s =
        (try (calling (clusters car false s.obj.metadata.key))
            >>= Reconciler.set_up_and_create provider pc)
          s
