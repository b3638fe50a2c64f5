-- ===== src/Controller/Steps.antt =====
-- The calls of a CreateOrUpdate that returns no error, in order.
use service_provider_otel_co.Base.{
  String, ◌≡◌, Bool, some, arith, Result, ok, Result-cases, inl, inr,
}
use service_provider_otel_co.Kube.Objects.{CtrlResult}
use service_provider_otel_co.Kube.Client.{Runtime, Client, Run}
use service_provider_otel_co.Api.Service.{
  OtelCollectorServiceStatus, OtelCollectorService, otel_api,
}
use service_provider_otel_co.Api.Config.{ProviderConfig}
use service_provider_otel_co.Spruntime.Api.{ClusterContext}
use service_provider_otel_co.Spruntime.Status.{status_progressing}
use service_provider_otel_co.Resources.Namespace.{reconcile_namespace}
use service_provider_otel_co.Resources.Prerequisites.{PrerequisiteResult, check_prerequisites}
use service_provider_otel_co.Controller.Resolve.{resolve_namespace}
use service_provider_otel_co.Controller.Reconciler.{
  OtelCollectorServiceReconciler, sync_pull_secrets, deploy, create_or_update,
}

module _ {rt : Runtime} (client : rt.Cluster → Client rt)
    (equal : OtelCollectorServiceStatus → OtelCollectorServiceStatus → Bool)
    (r : OtelCollectorServiceReconciler rt) (pc : ProviderConfig) (clusters : ClusterContext rt)
    (m : rt.Cluster) (at_hand : clusters.mcp_cluster ≡ some m)
    (s : Run rt OtelCollectorService) where
  abbrev pub mcp : Client rt
  mcp = client m

  abbrev pub target : String
  target = resolve_namespace s.obj pc

  -- The object while the calls are made.
  abbrev pub in_progress : OtelCollectorService
  in_progress = status_progressing rt (otel_api equal) "Reconciling" "Reconcile in progress" s.obj

  -- The clusters after the namespace, the pull secrets and the check.
  abbrev pub named : rt.World
  named = (reconcile_namespace mcp target s.world).1

  abbrev pub synced : rt.World
  synced = (sync_pull_secrets client equal r mcp target pc.spec.image_pull_secrets named).1

  abbrev pub checked : rt.World
  checked = (check_prerequisites mcp target synced).1

  abbrev pub finish : PrerequisiteResult → Result rt.Error CtrlResult × Run rt OtelCollectorService
  finish p = deploy client equal r mcp target pc p (record { obj = in_progress; world = checked })

  pub record Steps (p : PrerequisiteResult) : Type 0 where
    pub namespace_ok : (reconcile_namespace mcp target s.world).0 ≡ ok tt
    pub secrets_ok :
        (sync_pull_secrets client equal r mcp target pc.spec.image_pull_secrets named).0 ≡ ok tt
    pub check_ok : (check_prerequisites mcp target synced).0 ≡ ok p
    pub rest : create_or_update client equal r pc clusters s ≡ finish p

  pub create_or_update-Steps :
      {res : CtrlResult}
      → (create_or_update client equal r pc clusters s).0 ≡ ok res
      → (p : PrerequisiteResult) × Steps p
  unfolding create_or_update resolve_namespace status_progressing
  create_or_update-Steps h = elim (Result-cases (check_prerequisites mcp target synced).0) [
    | inl (p, e) ↦ (
      p,
      record {
        namespace_ok = ground arith;
        secrets_ok = ground arith;
        check_ok = e;
        rest = ground arith;
      },
    )
    | inr (f, e) ↦ absurd (ground arith)
  ]
