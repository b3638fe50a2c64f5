-- ===== src/Controller/Removal.antt =====
-- What Delete removes and reports.
use service_provider_otel_co.Base.{
  String, Bool, ◌≡◌, refl, false, none, some, arith, Result, ok, err,
}
use service_provider_otel_co.Kube.Objects.{ObjectKey, CtrlResult}
use service_provider_otel_co.Kube.Client.{Runtime, Kind, deployments, services, Client, Run}
use service_provider_otel_co.Kube.Laws.{same, View, IsLawful, Serves}
use service_provider_otel_co.Api.Service.{
  OtelCollectorServiceStatus, OtelCollectorService, otel_api,
}
use service_provider_otel_co.Api.Config.{ProviderConfig}
use service_provider_otel_co.Spruntime.Api.{ClusterContext}
use service_provider_otel_co.Spruntime.Access.{no_requeue}
use service_provider_otel_co.Spruntime.Status.{status_terminating}
use service_provider_otel_co.Resources.Cleanup.{delete_managed_resources}
use service_provider_otel_co.Resources.Cleanup.Removed.{
  deployment_key, service_key, delete_managed_resources-removes, delete_managed_resources_frame,
}
use service_provider_otel_co.Resources.Cleanup.Returns.{delete_managed_resources-returns}
use service_provider_otel_co.Controller.Resolve.{resolve_namespace}
use service_provider_otel_co.Controller.Reconciler.{OtelCollectorServiceReconciler, delete}

module _ {rt : Runtime} (client : rt.Cluster → Client rt)
    (equal : OtelCollectorServiceStatus → OtelCollectorServiceStatus → Bool)
    (r : OtelCollectorServiceReconciler rt) {view : View rt} {m : rt.Cluster}
    (L : IsLawful (client m) view) (pc : ProviderConfig) (clusters : ClusterContext rt)
    (e : clusters.mcp_cluster ≡ some m) where
  -- What Delete does with the result of the cleanup.
  abbrev pub finish : Result rt.Error (Unit {0}) → Result rt.Error CtrlResult
  finish (ok _) = ok no_requeue
  finish (err x) = err x

  finish-ok :
      (done : Result rt.Error Unit) (res : CtrlResult)
      → finish done ≡ ok res
      → (done ≡ ok tt) × (res ≡ no_requeue)
  finish-ok (ok tt) res h = (refl, cc h)
  finish-ok (err x) res h = absurd (cc h)

  pub delete-cleans :
      (s : Run rt OtelCollectorService)
      → let (done, w) = delete_managed_resources (client m) (resolve_namespace s.obj pc) s.world in
        delete client equal r pc clusters s
        ≡ (finish done, record { obj = status_terminating rt (otel_api equal) s.obj; world = w })
  unfolding delete resolve_namespace status_terminating
  delete-cleans s = ground arith

  -- With a control plane at hand and a lawful client: whether or not the cleanup succeeds, the object reports that it is terminating, and on the control
  -- plane no object but the collector's deployment and service changes; when Delete returns without an
  -- error, it asks for no requeue and both are gone.
  pub delete-removes :
      (s : Run rt OtelCollectorService)
      → let run = delete client equal r pc clusters s in
        let ns = resolve_namespace s.obj pc in
        (run.1.obj ≡ status_terminating rt (otel_api equal) s.obj)
        × ((j : Kind) (b : ObjectKey)
            → same deployments (deployment_key ns) j b ≡ false
            → same services (service_key ns) j b ≡ false
            → view run.1.world j b ≡ view s.world j b)
        × ((res : CtrlResult)
            → run.0 ≡ ok res
            → (res ≡ no_requeue)
              × (view run.1.world deployments (deployment_key ns) ≡ none)
              × (view run.1.world services (service_key ns) ≡ none))
  delete-removes s =
      let ns : String = resolve_namespace s.obj pc in
      let cleanup = delete_managed_resources (client m) ns s.world in
      rw (delete-cleans s) (
        refl,
        delete_managed_resources_frame L ns s.world,
        λ res h.
            let (done, at) = finish-ok cleanup.0 res h in
            let (no_deployment, no_service) = delete_managed_resources-removes L ns s.world done in
            (at, no_deployment, no_service),
      )

  -- On a control plane that answers, under the same conditions, Delete returns without an error, and the
  -- collector's deployment and service are gone.
  pub delete-returns :
      Serves (client m) view
      → (s : Run rt OtelCollectorService)
      → let run = delete client equal r pc clusters s in
        let ns = resolve_namespace s.obj pc in
        (run.0 ≡ ok no_requeue)
        × (view run.1.world deployments (deployment_key ns) ≡ none)
        × (view run.1.world services (service_key ns) ≡ none)
  delete-returns S s =
      let ns : String = resolve_namespace s.obj pc in
      let done = delete_managed_resources-returns L S ns s.world in
      let (no_deployment, no_service) = delete_managed_resources-removes L ns s.world done in
      rw (delete-cleans s, done) (refl, no_deployment, no_service)
