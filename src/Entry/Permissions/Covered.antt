-- ===== src/Entry/Permissions/Covered.antt =====
-- The requested permissions are enough for what the controller does on a control plane.
use service_provider_otel_co.Base.{
  String, ◌≡◌, refl, ◌∙◌, ap, Bool, some, List, [], ◌∷◌, Result, sym, pure, ◌>>=◌,
}
use service_provider_otel_co.Kube.Objects.{LocalObjectReference, CtrlResult}
use service_provider_otel_co.Kube.Client.{Runtime, Call, Step, calling, Client, Run}
use service_provider_otel_co.Api.Service.{
  OtelCollectorServiceStatus, OtelCollectorService, otel_api,
}
use service_provider_otel_co.Api.Config.{ProviderConfig}
use service_provider_otel_co.Spruntime.Api.{ClusterContext}
use service_provider_otel_co.Base.Dict.{insert}
use service_provider_otel_co.Spruntime.Status.{status_ready, status_progressing, status_terminating}
use service_provider_otel_co.Spruntime.Access.{no_requeue}
use service_provider_otel_co.Controller.Resolve.{resolve_namespace}
use service_provider_otel_co.Resources.Namespace.{reconcile_namespace}
use service_provider_otel_co.Resources.PullSecrets.{sync_secret, reconcile_image_pull_secrets}
use service_provider_otel_co.Resources.Prerequisites.{
  PrerequisiteResult, verdict, read, check_prerequisites,
}
use service_provider_otel_co.Resources.Deployment.{
  set_deployment, DeploymentOpts, reconcile_deployment,
}
use service_provider_otel_co.Resources.Service.{set_service, reconcile_service}
use service_provider_otel_co.Resources.Cleanup.{
  delete_object, delete_found, ignore_not_found, delete_managed_resources,
}
use service_provider_otel_co.Controller.Reconciler.{
  OtelCollectorServiceReconciler, mcp_client, sync_pull_secrets, deploy, create_or_update, delete,
  deployment_opts,
}
use service_provider_otel_co.Entry.Permissions.{mcp_permissions, restrict}

module _ {rt : Runtime} (forbidden : rt.Error) (c : Client rt) where
  abbrev limited : Client rt
  limited = restrict mcp_permissions forbidden c

  namespace-covered : (ns : String) → reconcile_namespace limited ns ≡ reconcile_namespace c ns
  unfolding reconcile_namespace
  namespace-covered ns = refl

  secret-covered :
      (platform : Client rt) (ns source_ns : String) (ref : LocalObjectReference)
      → sync_secret limited platform ns source_ns ref ≡ sync_secret c platform ns source_ns ref
  unfolding sync_secret
  secret-covered platform ns source_ns ref = refl

  check-covered : (ns : String) → check_prerequisites limited ns ≡ check_prerequisites c ns
  unfolding check_prerequisites read verdict
  check-covered ns = refl

  cleanup-covered :
      (ns : String) → delete_managed_resources limited ns ≡ delete_managed_resources c ns
  unfolding delete_managed_resources delete_object delete_found ignore_not_found
  cleanup-covered ns = refl

  deployment-covered :
      (ns : String) (opts : DeploymentOpts)
      → reconcile_deployment limited ns opts ≡ reconcile_deployment c ns opts
  unfolding reconcile_deployment
  deployment-covered ns opts = refl

  service-covered : (ns : String) → reconcile_service limited ns ≡ reconcile_service c ns
  unfolding reconcile_service
  service-covered ns = refl

  secrets-covered :
      (platform : Client rt) (ns source_ns : String) (refs : List LocalObjectReference)
      → reconcile_image_pull_secrets limited platform ns source_ns refs
        ≡ reconcile_image_pull_secrets c platform ns source_ns refs
  unfolding reconcile_image_pull_secrets
  secrets-covered platform ns source_ns [] = refl
  secrets-covered platform ns source_ns (ref ∷ refs) =
      rw (secret-covered platform ns source_ns ref, secrets-covered platform ns source_ns refs)

-- CreateOrUpdate and Delete by the calls they make on the control plane.
module _ {rt : Runtime} (equal : OtelCollectorServiceStatus → OtelCollectorServiceStatus → Bool)
    (pc : ProviderConfig) (s : Run rt OtelCollectorService) where
  abbrev start : Run rt OtelCollectorService
  start = record s {
    obj = status_progressing rt (otel_api equal) "Reconciling" "Reconcile in progress" s.obj;
  }

  abbrev calls :
      Call rt Unit
      → Call rt Unit
      → Call rt PrerequisiteResult
      → (PrerequisiteResult → Step rt OtelCollectorService CtrlResult)
      → Result rt.Error CtrlResult × Run rt OtelCollectorService
  calls first second third last =
      (calling first >>= λ _. calling second >>= λ _. calling third >>= last) start

  abbrev removal : Call rt Unit → Result rt.Error CtrlResult × Run rt OtelCollectorService
  removal cleanup =
      (calling cleanup >>= λ _. pure no_requeue)
        (record s { obj = status_terminating rt (otel_api equal) s.obj })

  module _ (client : rt.Cluster → Client rt) (r : OtelCollectorServiceReconciler rt)
      {m : rt.Cluster} (clusters : ClusterContext rt) (e : clusters.mcp_cluster ≡ some m) where
    create_or_update-calls :
        let ns = resolve_namespace s.obj pc in
        create_or_update client equal r pc clusters s
        ≡ calls
            (reconcile_namespace (client m) ns)
            (sync_pull_secrets client equal r (client m) ns pc.spec.image_pull_secrets)
            (check_prerequisites (client m) ns)
            (deploy client equal r (client m) ns pc)
    unfolding create_or_update resolve_namespace status_progressing
    create_or_update-calls = rw (e, mcp_client)

    delete-calls :
        delete client equal r pc clusters s
        ≡ removal (delete_managed_resources (client m) (resolve_namespace s.obj pc))
    unfolding delete resolve_namespace status_terminating
    delete-calls = rw (e, mcp_client)

module _ {rt : Runtime} (client client' : rt.Cluster → Client rt)
    (equal : OtelCollectorServiceStatus → OtelCollectorServiceStatus → Bool)
    (r : OtelCollectorServiceReconciler rt) (m : rt.Cluster) (forbidden : rt.Error)
    (limits : client' m ≡ restrict mcp_permissions forbidden (client m))
    (same_platform : client' r.platform_cluster ≡ client r.platform_cluster) (pc : ProviderConfig)
    (clusters : ClusterContext rt) (e : clusters.mcp_cluster ≡ some m)
    (s : Run rt OtelCollectorService) where
  sync-covered :
      (ns : String) (refs : List LocalObjectReference)
      → sync_pull_secrets client' equal r (client' m) ns refs
        ≡ sync_pull_secrets client equal r (client m) ns refs
  unfolding sync_pull_secrets
  sync-covered ns [] = refl
  sync-covered ns (ref ∷ refs) =
      rw (same_platform, limits)
        (secrets-covered forbidden (client m) (client r.platform_cluster) ns r.pod_namespace
          (ref ∷ refs))

  deploy-covered :
      (ns : String) (p : PrerequisiteResult)
      → deploy client' equal r (client' m) ns pc p ≡ deploy client equal r (client m) ns pc p
  unfolding deploy reconcile_deployment reconcile_service set_deployment set_service status_ready
      status_progressing insert deployment_opts
  deploy-covered ns p = rw limits

  -- With the requested permissions, a control plane answers both methods of the controller as it would
  -- answer a client that may do everything.
  pub permissions-cover :
      (create_or_update client' equal r pc clusters s
        ≡ create_or_update client equal r pc clusters s)
      × (delete client' equal r pc clusters s ≡ delete client equal r pc clusters s)
  permissions-cover =
      let ns : String = resolve_namespace s.obj pc in
      let first : reconcile_namespace (client' m) ns ≡ reconcile_namespace (client m) ns =
        ap (λ (c : Client rt). reconcile_namespace c ns) limits
        ∙ namespace-covered forbidden (client m) ns in
      let third : check_prerequisites (client' m) ns ≡ check_prerequisites (client m) ns =
        ap (λ (c : Client rt). check_prerequisites c ns) limits
        ∙ check-covered forbidden (client m) ns in
      let cleanup : delete_managed_resources (client' m) ns
          ≡ delete_managed_resources (client m) ns =
        ap (λ (c : Client rt). delete_managed_resources c ns) limits
        ∙ cleanup-covered forbidden (client m) ns in
      (
        create_or_update-calls equal pc s client' r clusters e
            ∙ (λ i.
                calls equal pc s (first i) (sync-covered ns pc.spec.image_pull_secrets i) (third i)
                  (λ p. deploy-covered ns p i))
            ∙ sym (create_or_update-calls equal pc s client r clusters e),
        delete-calls equal pc s client' r clusters e
            ∙ ap (removal equal pc s) cleanup
            ∙ sym (delete-calls equal pc s client r clusters e),
      )
