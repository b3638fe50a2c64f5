-- ===== src/Controller/Stable.antt =====
-- A second CreateOrUpdate changes nothing on the control plane.
mod Deploy
use mathlib.Core.Path.{ap₂}
use service_provider_otel_co.Base.{
  String, ◌≡◌, refl, sym, ap, ◌∙◌, Bool, true, some, List, [], ◌∷◌, All, All-map, ok,
}
use service_provider_otel_co.Kube.Objects.{ObjectKey, LocalObjectReference, CtrlResult}
use service_provider_otel_co.Kube.Client.{
  Runtime, Kind, config_maps, secrets, deployments, services, Client, Run,
}
use service_provider_otel_co.Kube.Laws.{View, IsLawful, Ignores}
use service_provider_otel_co.Kube.Changes.{Unchanged}
use service_provider_otel_co.Api.Service.{OtelCollectorServiceStatus, OtelCollectorService}
use service_provider_otel_co.Api.Config.{ProviderConfig}
use service_provider_otel_co.Spruntime.Api.{ClusterContext}
use service_provider_otel_co.Spruntime.Access.{no_requeue}
use service_provider_otel_co.Resources.Constants.{config_map_name, secret_name}
use service_provider_otel_co.Resources.Namespace.Exists.{reconcile_namespace_stable}
use service_provider_otel_co.Resources.PullSecrets.Synced.{IsSynced}
use service_provider_otel_co.Resources.PullSecrets.Synced.Stable.{pull_secrets_stable}
use service_provider_otel_co.Resources.ConfigHash.{compute_config_hash}
use service_provider_otel_co.Resources.Prerequisites.{PrerequisiteResult, verdict}
use service_provider_otel_co.Resources.Prerequisites.Exact.{
  object_in, check_prerequisites-eq_verdict, check_prerequisites_frame,
}
use service_provider_otel_co.Resources.Deployment.{DeploymentOpts, set_deployment}
use service_provider_otel_co.Resources.Deployment.Desired.{deployment_key}
use service_provider_otel_co.Resources.Service.Routes.{service_key}
use service_provider_otel_co.Controller.Resolve.{
  resolve_namespace, resolve_image, resolve_version, resolve_resources,
}
use service_provider_otel_co.Controller.Reconciler.{
  OtelCollectorServiceReconciler, deployment_opts, sync_pull_secrets, create_or_update,
}
use service_provider_otel_co.Controller.Apart.{namespace_apart}
use service_provider_otel_co.Controller.Success.{
  IsDeployed, opts-status, create_or_update-IsDeployed,
}
use service_provider_otel_co.Controller.Steps.{
  in_progress, named, synced, checked, finish, Steps, create_or_update-Steps,
}
use service_provider_otel_co.Controller.Stable.Deploy.{deploy_stable}

-- What is deployed depends on the spec of the object only.
module _ {rt : Runtime} (client : rt.Cluster → Client rt)
    (equal : OtelCollectorServiceStatus → OtelCollectorServiceStatus → Bool)
    (r : OtelCollectorServiceReconciler rt) (o o' : OtelCollectorService)
    (same_spec : o.spec ≡ o'.spec) (pc : ProviderConfig) where
  namespace-same : resolve_namespace o' pc ≡ resolve_namespace o pc
  unfolding resolve_namespace
  namespace-same = rw same_spec

  opts-same :
      (hash : String)
      → deployment_opts client equal r o' pc hash ≡ deployment_opts client equal r o pc hash
  unfolding deployment_opts resolve_image resolve_version resolve_resources
  opts-same hash = rw same_spec

module _ {rt : Runtime} (client : rt.Cluster → Client rt)
    (equal : OtelCollectorServiceStatus → OtelCollectorServiceStatus → Bool)
    (r : OtelCollectorServiceReconciler rt) (m : rt.Cluster) {mcp_view platform_view : View rt}
    (L : IsLawful (client m) mcp_view) (P : IsLawful (client r.platform_cluster) platform_view)
    (apart : Ignores (client m) platform_view)
    (only_read : (k : Kind) (a : ObjectKey) (w : rt.World) (j : Kind) (b : ObjectKey)
      → mcp_view ((client r.platform_cluster).get k a w).1 j b ≡ mcp_view w j b)
    (pc : ProviderConfig) (clusters : ClusterContext rt) (e : clusters.mcp_cluster ≡ some m) where
  sync_stable :
      (ns : String) (refs : List LocalObjectReference) (w : rt.World)
      → All (IsSynced L P apart only_read ns r.pod_namespace w) refs
      → (sync_pull_secrets client equal r (client m) ns refs w).0 ≡ ok tt
      → Unchanged rt mcp_view w (sync_pull_secrets client equal r (client m) ns refs w).1
  unfolding sync_pull_secrets
  sync_stable ns [] w s h = λ j b. refl
  sync_stable ns (ref ∷ refs) w s h =
      pull_secrets_stable L P apart only_read ns r.pod_namespace (ref ∷ refs) w s h

  -- A run on a state where the collector is deployed.
  module _ (s : Run rt OtelCollectorService)
      (d : IsDeployed client equal r m L P apart only_read s.obj pc s.world)
      (p : PrerequisiteResult) (steps : Steps client equal r pc clusters m e s p) where
    abbrev ns : String
    ns = resolve_namespace s.obj pc

    abbrev start : Run rt OtelCollectorService
    start = record {
      obj = in_progress client equal r pc clusters m e s;
      world = checked client equal r pc clusters m e s;
    }

    named_same : Unchanged rt mcp_view s.world (named client equal r pc clusters m e s)
    named_same = reconcile_namespace_stable L ns s.world d.namespace_exists steps.namespace_ok

    named-IsSynced :
        (ref : LocalObjectReference)
        → IsSynced L P apart only_read ns r.pod_namespace s.world ref
        → IsSynced L P apart only_read ns r.pod_namespace
            (named client equal r pc clusters m e s)
            ref
    named-IsSynced ref i =
        let mcp_same = named_same secrets (record { namespace = ns; name = ref.name }) in
        let platform_same =
          namespace_apart apart ns s.world secrets
            (record { namespace = r.pod_namespace; name = ref.name }) in
        record { present = rw mcp_same i.present; copied = rw (mcp_same, platform_same) i.copied }

    synced_same : Unchanged rt mcp_view s.world (synced client equal r pc clusters m e s)
    synced_same j b =
        sync_stable ns pc.spec.image_pull_secrets (named client equal r pc clusters m e s)
          (All-map named-IsSynced pc.spec.image_pull_secrets d.secrets_synced) steps.secrets_ok j b
        ∙ named_same j b

    checked_same : Unchanged rt mcp_view s.world (checked client equal r pc clusters m e s)
    checked_same j b =
        check_prerequisites_frame L ns (synced client equal r pc clusters m e s) j b
        ∙ synced_same j b

    verdict_same : p ≡ verdict (client m) ns (some d.cm) (some d.secret)
    verdict_same =
        check_prerequisites-eq_verdict L ns (synced client equal r pc clusters m e s) steps.check_ok
        ∙ ap₂ (verdict (client m) ns)
            (synced_same config_maps (object_in ns config_map_name) ∙ d.has_config)
            (synced_same secrets (object_in ns secret_name) ∙ d.has_secret)

    ready_same : (p.ready ≡ true) × (p.config_hash ≡ compute_config_hash rt d.cm d.secret)
    unfolding verdict
    ready_same = (
      ap (λ (q : PrerequisiteResult). q.ready) verdict_same,
      ap (λ (q : PrerequisiteResult). q.config_hash) verdict_same,
    )

    finish_same :
        {res : CtrlResult}
        → (finish client equal r pc clusters m e s p).0 ≡ ok res
        → Unchanged rt mcp_view s.world (finish client equal r pc clusters m e s p).1.world
    finish_same h j b =
        deploy_stable L ns client equal r pc p start d.before_deployment d.before_service
          ready_same.0 h
          (checked_same deployments (deployment_key ns)
            ∙ d.has_deployment
            ∙ ap (λ (o : DeploymentOpts). some (set_deployment o d.before_deployment))
                (ap (deployment_opts client equal r s.obj pc) (sym ready_same.1)
                  ∙ sym (
                      opts-status client equal r m L P apart only_read "Reconciling"
                        "Reconcile in progress" p.config_hash s.obj pc)))
          (checked_same services (service_key ns) ∙ d.has_service) j b
        ∙ checked_same j b

  deployed_stable :
      (s : Run rt OtelCollectorService) {res : CtrlResult}
      → IsDeployed client equal r m L P apart only_read s.obj pc s.world
      → (create_or_update client equal r pc clusters s).0 ≡ ok res
      → Unchanged rt mcp_view s.world (create_or_update client equal r pc clusters s).1.world
  deployed_stable s d h =
      let (p, steps) = create_or_update-Steps client equal r pc clusters m e s h in
      rw steps.rest (finish_same s d p steps (rw steps.rest at h))

  IsDeployed-same :
      (o o' : OtelCollectorService) (w : rt.World)
      → o.spec ≡ o'.spec
      → IsDeployed client equal r m L P apart only_read o pc w
      → IsDeployed client equal r m L P apart only_read o' pc w
  IsDeployed-same o o' w same_spec d =
      let ns = namespace-same client equal r o o' same_spec pc in
      record {
        namespace_exists = rw ns d.namespace_exists;
        secrets_synced = rw ns d.secrets_synced;
        cm = d.cm;
        secret = d.secret;
        has_config = rw ns d.has_config;
        has_secret = rw ns d.has_secret;
        before_deployment = d.before_deployment;
        has_deployment = rw (ns, opts-same client equal r o o' same_spec pc) d.has_deployment;
        before_service = d.before_service;
        has_service = rw ns d.has_service;
      }

  -- After a CreateOrUpdate that returned no error and no requeue, another one that returns no error, for
  -- an object of the same spec and with the same config, changes no object of the control plane: what is
  -- deployed is a fixed point. Both clients are lawful, and the platform and the control plane apart.
  pub create_or_update_stable :
      (s : Run rt OtelCollectorService) (o : OtelCollectorService) {res : CtrlResult}
      → s.obj.spec ≡ o.spec
      → let run = create_or_update client equal r pc clusters s in
        let again =
          create_or_update client equal r pc clusters (record { obj = o; world = run.1.world }) in
        run.0 ≡ ok no_requeue → again.0 ≡ ok res → Unchanged rt mcp_view run.1.world again.1.world
  create_or_update_stable s o same_spec h h' =
      deployed_stable (record { obj = o; world = _ })
        (IsDeployed-same s.obj o _ same_spec
          (create_or_update-IsDeployed client equal r m L P apart only_read pc clusters e s h))
        h'
