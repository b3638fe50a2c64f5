-- ===== src/Controller/Finalized.antt =====
-- The generic reconciler's deletion with the collector's controller as its domain.
use service_provider_otel_co.Base.{
  String, ◌≡◌, ◌⊎◌, Bool, none, some, Result, ok, err, Keeps, Keeps-bind, Keeps-pure, Keeps-if,
  Keeps-raise, Keeps-try, Gives,
}
use service_provider_otel_co.Kube.Objects.{ObjectKey}
use service_provider_otel_co.Kube.Client.{Runtime, Kind, deployments, services, Object, Client}
use service_provider_otel_co.Kube.Laws.{View, IsLawful}
use service_provider_otel_co.Api.Service.{
  OtelCollectorServiceStatus, OtelCollectorService, otel_api,
}
use service_provider_otel_co.Api.Config.{ProviderConfig, otel_configs}
use service_provider_otel_co.Spruntime.Api.{ClusterContext, ClusterAccessProvider, ObjectClient}
use service_provider_otel_co.Spruntime.Access.Frame.{AccessKeeps}
use service_provider_otel_co.Spruntime.Access.Given.{IsOnly, clusters-give}
use service_provider_otel_co.Spruntime.Reconciler.{SpReconciler}
use service_provider_otel_co.Spruntime.Reconciler
use service_provider_otel_co.Spruntime.Reconciler.Order.{In, Sound, Shows, Cleans, delete_order}
use service_provider_otel_co.Resources.Cleanup.{
  ignore_not_found, delete_found, delete_object, delete_managed_resources,
}
use service_provider_otel_co.Resources.Cleanup.Removed.{deployment_key, service_key}
use service_provider_otel_co.Controller.Resolve.{resolve_namespace}
use service_provider_otel_co.Controller.Reconciler.{OtelCollectorServiceReconciler}
use service_provider_otel_co.Controller.Provider.{otel_provider}
use service_provider_otel_co.Controller.Removal.{delete-cleans, delete-removes}

-- What the calls of a client keep, the cleanup keeps.
module _ {rt : Runtime} (c : Client rt) (P : rt.World → Type 0)
    (get : (k : Kind) (a : ObjectKey) → Keeps P (c.get k a))
    (remove : (k : Kind) (o : Object k) → Keeps P (c.delete k o)) where
  ignore_not_found-Keeps : (done : Result rt.Error (Unit {0})) → Keeps P (ignore_not_found c done)
  unfolding ignore_not_found
  ignore_not_found-Keeps (ok _) = Keeps-pure tt
  ignore_not_found-Keeps (err e) = Keeps-if (rt.is_not_found e) _ _ (Keeps-pure tt) (Keeps-raise e)

  delete_found-Keeps :
      (k : Kind) (found : Result rt.Error (Object k)) → Keeps P (delete_found c k found)
  unfolding delete_found
  delete_found-Keeps k (ok o) = Keeps-bind _ _ (Keeps-try _ (remove k o)) ignore_not_found-Keeps
  delete_found-Keeps k (err e) = Keeps-if (rt.is_not_found e) _ _ (Keeps-pure tt) (Keeps-raise e)

  delete_object-Keeps : (k : Kind) (a : ObjectKey) → Keeps P (delete_object c k a)
  unfolding delete_object
  delete_object-Keeps k a = Keeps-bind _ _ (Keeps-try _ (get k a)) (delete_found-Keeps k)

  pub delete_managed_resources-Keeps : (ns : String) → Keeps P (delete_managed_resources c ns)
  unfolding delete_managed_resources
  delete_managed_resources-Keeps ns =
      Keeps-bind _ _ (delete_object-Keeps deployments _) (λ _. delete_object-Keeps services _)

module _ {rt : Runtime} (client : rt.Cluster → Client rt)
    (equal : OtelCollectorServiceStatus → OtelCollectorServiceStatus → Bool)
    (r : OtelCollectorServiceReconciler rt) (onboarding : ObjectClient rt OtelCollectorService)
    (car : ClusterAccessProvider rt) (o : OtelCollectorService) (pc : ProviderConfig)
    (m : rt.Cluster) (view : View rt) where
  abbrev pub provider : SpReconciler rt (otel_api equal) otel_configs
  provider = otel_provider client equal r onboarding car (some pc)

  -- The collector's deployment and service are not on the control plane.
  abbrev pub Gone : rt.World → Type 0
  Gone w =
      let ns = resolve_namespace o pc in
      (view w deployments (deployment_key ns) ≡ none) × (view w services (service_key ns) ≡ none)

  -- What is relied on of the clusters while `o` is deleted. `held` stands for the object with its finalizer on
  -- the onboarding cluster: only an update of the object ends it. `revoked` says that the object's access
  -- request is in deletion or missing, which a reply of that kind shows; only the call that revokes the access
  -- may bring that about while a collector is on the control plane. The access provider knows one control plane
  -- for the object; and neither it nor the onboarding cluster puts a collector on that.
  pub record Separate (held revoked : rt.World → Type 0) : Type 0 where
    pub lawful : IsLawful (client m) view
    pub access : AccessKeeps car held
    pub access_sound : AccessKeeps car (Sound rt revoked Gone)
    pub only : (req : ObjectKey) (w : rt.World) → Gives (IsOnly m) (car.mcp_cluster req w).0
    pub get_held : (k : Kind) (a : ObjectKey) → Keeps held ((client m).get k a)
    pub delete_held : (k : Kind) (x : Object k) → Keeps held ((client m).delete k x)
    pub get_sound : (k : Kind) (a : ObjectKey) → Keeps (Sound rt revoked Gone) ((client m).get k a)
    pub delete_sound :
        (k : Kind) (x : Object k) → Keeps (Sound rt revoked Gone) ((client m).delete k x)
    pub patch_held : Keeps (In rt OtelCollectorService held) (onboarding.patch_status o)
    pub patch_sound :
        Keeps (In rt OtelCollectorService (Sound rt revoked Gone)) (onboarding.patch_status o)
    pub patch_gone : Keeps (In rt OtelCollectorService Gone) (onboarding.patch_status o)
    pub update_gone : Keeps (In rt OtelCollectorService Gone) onboarding.update
    pub access_gone : (req : ObjectKey) → Keeps Gone (car.reconcile_delete req)
    pub mcp_shows : (w : rt.World) → Shows rt revoked (car.mcp_access_request o.metadata.key w)

  module _ {held revoked : rt.World → Type 0} (K : Separate held revoked) where
    cleanup-Keeps :
        (P : rt.World → Type 0) (ctx : ClusterContext rt)
        → ctx.mcp_cluster ≡ some m
        → ((k : Kind) (a : ObjectKey) → Keeps P ((client m).get k a))
        → ((k : Kind) (x : Object k) → Keeps P ((client m).delete k x))
        → Keeps (In rt OtelCollectorService P) (provider.service_provider.delete pc ctx)
    cleanup-Keeps P ctx fit get remove = record {
      at = λ s h.
          rw (delete-cleans client equal r K.lawful pc ctx fit s)
            ((delete_managed_resources-Keeps (client m) P get remove _).at s.world h);
    }

    cleans : Cleans provider o pc (λ ctx. ctx.mcp_cluster ≡ some m) held revoked Gone
    cleans = record {
      access = K.access;
      access_sound = K.access_sound;
      clusters_fit = λ req w. clusters-give car req m (K.only req) w;
      patch_held = K.patch_held;
      patch_sound = K.patch_sound;
      delete_held = λ ctx fit. cleanup-Keeps held ctx fit K.get_held K.delete_held;
      delete_sound =
          λ ctx fit. cleanup-Keeps (Sound rt revoked Gone) ctx fit K.get_sound K.delete_sound;
      patch_cleaned = K.patch_gone;
      update_cleaned = K.update_gone;
      access_cleaned = K.access_gone;
      delete_cleans = λ ctx w res fit e go_on.
          let (_, _, removes) =
            delete-removes client equal r K.lawful pc ctx fit (record { obj = o; world = w }) in
          let (_, no_deployment, no_service) = removes res e in (no_deployment, no_service);
      mcp_shows = K.mcp_shows;
      workload_shows = λ e. absurd (cc e);
    }

    -- Under the conditions of `Separate`: a run of the deletion of an OtelCollectorService that starts with its
    -- finalizer in place, and with no collector on the control plane if the access request is missing or in
    -- deletion, ends with the finalizer in place, or with the collector's deployment and service gone from the
    -- control plane, whatever fails on the way; and again no collector is there if the access request is
    -- missing or in deletion.
    pub delete-Gone :
        (w : rt.World)
        → held w
        → (revoked w → Gone w)
        → let w' = (Reconciler.delete provider pc (record { obj = o; world = w })).1.world in
          (held w' ⊎ Gone w') × (revoked w' → Gone w')
    delete-Gone = delete_order provider cleans
