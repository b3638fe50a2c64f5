-- ===== src/Controller/Success.antt =====
-- What stands in the control plane after a CreateOrUpdate that asks for no requeue.
use service_provider_otel_co.Base.{
  String, ◌≡◌, refl, sym, ap, ◌∙◌, Bool, true, false, Option, none, some, is_some, List, [], ◌∷◌,
  All, All-of, All-map, Result, ok,
}
use service_provider_otel_co.Kube.Objects.{
  ObjectKey, LocalObjectReference, ConfigMap, Secret, Deployment, Service, CtrlResult,
}
use service_provider_otel_co.Kube.Client.{
  Runtime, Kind, namespaces, config_maps, secrets, deployments, services, Client, Run,
}
use service_provider_otel_co.Kube.Laws.{same, existing_or, View, IsLawful, Ignores}
use service_provider_otel_co.Api.Service.{
  OtelCollectorServiceStatus, OtelCollectorService, otel_api,
}
use service_provider_otel_co.Api.Config.{ProviderConfig}
use service_provider_otel_co.Spruntime.Api.{ClusterContext}
use service_provider_otel_co.Spruntime.Access.{no_requeue}
use service_provider_otel_co.Spruntime.Status.{status_progressing}
use service_provider_otel_co.Resources.Constants.{config_map_name, secret_name}
use service_provider_otel_co.Resources.Namespace.Exists.{
  key_of_namespace, reconcile_namespace-exists,
}
use service_provider_otel_co.Resources.PullSecrets.Synced.{
  IsSynced, pull_secrets-IsSynced, pull_secrets_frame,
}
use service_provider_otel_co.Resources.ConfigHash.{compute_config_hash}
use service_provider_otel_co.Resources.Prerequisites.{PrerequisiteResult, verdict}
use service_provider_otel_co.Resources.Prerequisites.Exact.{
  object_in, check_prerequisites-eq_verdict, check_prerequisites_frame,
}
use service_provider_otel_co.Resources.Deployment.{DeploymentOpts, set_deployment, new_deployment}
use service_provider_otel_co.Resources.Deployment.Desired.{deployment_key}
use service_provider_otel_co.Resources.Service.{set_service, new_service}
use service_provider_otel_co.Resources.Service.Routes.{service_key}
use service_provider_otel_co.Controller.Resolve.{
  resolve_namespace, resolve_image, resolve_version, resolve_resources,
}
use service_provider_otel_co.Controller.Reconciler.{
  OtelCollectorServiceReconciler, deployment_opts, sync_pull_secrets, create_or_update,
}
use service_provider_otel_co.Controller.Deploy.{deploy_frame, deploy-Stored}
use service_provider_otel_co.Controller.Apart.{check_prerequisites_apart, deploy_apart}
use service_provider_otel_co.Controller.Steps.{
  in_progress, named, synced, checked, finish, Steps, create_or_update-Steps,
}

module _ {rt : Runtime} (client : rt.Cluster → Client rt)
    (equal : OtelCollectorServiceStatus → OtelCollectorServiceStatus → Bool)
    (r : OtelCollectorServiceReconciler rt) (m : rt.Cluster) {mcp_view platform_view : View rt}
    (L : IsLawful (client m) mcp_view) (P : IsLawful (client r.platform_cluster) platform_view)
    (apart : Ignores (client m) platform_view)
    (only_read : (k : Kind) (a : ObjectKey) (w : rt.World) (j : Kind) (b : ObjectKey)
      → mcp_view ((client r.platform_cluster).get k a w).1 j b ≡ mcp_view w j b) where
  -- A collector runs for the object: its namespace exists, the pull secrets are in step with the
  -- platform, the deployment has the resolved options and the hash of the stored config, and the
  -- service is as desired.
  pub record IsDeployed (svcobj : OtelCollectorService) (pc : ProviderConfig) (w : rt.World)
      : Type 0 where
    pub namespace_exists :
        is_some (mcp_view w namespaces (key_of_namespace (resolve_namespace svcobj pc))) ≡ true
    pub secrets_synced :
        All
          (IsSynced L P apart only_read (resolve_namespace svcobj pc) r.pod_namespace w)
          pc.spec.image_pull_secrets
    pub cm : ConfigMap
    pub secret : Secret
    pub has_config :
        mcp_view w config_maps (object_in (resolve_namespace svcobj pc) config_map_name) ≡ some cm
    pub has_secret :
        mcp_view w secrets (object_in (resolve_namespace svcobj pc) secret_name) ≡ some secret
    pub before_deployment : Deployment
    pub has_deployment :
        mcp_view w deployments (deployment_key (resolve_namespace svcobj pc))
        ≡ some (
            set_deployment
              (deployment_opts client equal r svcobj pc (compute_config_hash rt cm secret))
              before_deployment)
    pub before_service : Service
    pub has_service :
        mcp_view w services (service_key (resolve_namespace svcobj pc))
        ≡ some (set_service before_service)

  -- The options read nothing of the status.
  pub opts-status :
      (reason message hash : String) (o : OtelCollectorService) (pc : ProviderConfig)
      → deployment_opts client equal r
          (status_progressing rt (otel_api equal) reason message o)
          pc
          hash
        ≡ deployment_opts client equal r o pc hash
  unfolding deployment_opts status_progressing resolve_image resolve_version resolve_resources
  opts-status reason message hash o pc = refl

  -- The verdict that lets the deployment go on is that on a config and a secret.
  pub verdict-ready :
      (ns : String) (x : Option ConfigMap) (y : Option Secret)
      → (verdict (client m) ns x y).ready ≡ true
      → (cm : ConfigMap) × (secret : Secret) × (x ≡ some cm)
        × (y ≡ some secret)
        × ((verdict (client m) ns x y).config_hash ≡ compute_config_hash rt cm secret)
  unfolding verdict
  verdict-ready ns (some cm) (some secret) h = (cm, secret, refl, refl, refl)
  verdict-ready ns (some cm) none h = cc
  verdict-ready ns none (some secret) h = cc
  verdict-ready ns none none h = cc

  sync-IsSynced :
      (ns : String) (refs : List LocalObjectReference) (w : rt.World)
      → (sync_pull_secrets client equal r (client m) ns refs w).0 ≡ ok tt
      → All
          (IsSynced L P apart only_read ns r.pod_namespace
            (sync_pull_secrets client equal r (client m) ns refs w).1)
          refs
  unfolding sync_pull_secrets
  sync-IsSynced ns [] w h = tt
  sync-IsSynced ns (ref ∷ refs) w h =
      pull_secrets-IsSynced L P apart only_read ns r.pod_namespace (ref ∷ refs) w h

  sync-keeps_namespaces :
      (ns : String) (refs : List LocalObjectReference) (w : rt.World) (b : ObjectKey)
      → mcp_view (sync_pull_secrets client equal r (client m) ns refs w).1 namespaces b
        ≡ mcp_view w namespaces b
  unfolding sync_pull_secrets
  sync-keeps_namespaces ns [] w b = refl
  sync-keeps_namespaces ns (ref ∷ refs) w b =
      pull_secrets_frame L P apart only_read ns r.pod_namespace (ref ∷ refs) w namespaces b
        (All-of (λ _. refl) (ref ∷ refs))

  module _ (pc : ProviderConfig) (clusters : ClusterContext rt) (e : clusters.mcp_cluster ≡ some m)
      (s : Run rt OtelCollectorService) where
    abbrev ns : String
    ns = resolve_namespace s.obj pc

    abbrev run : Result rt.Error CtrlResult × Run rt OtelCollectorService
    run = create_or_update client equal r pc clusters s

    abbrev synced_world : rt.World
    synced_world = synced client equal r pc clusters m e s

    module _ (p : PrerequisiteResult) (steps : Steps client equal r pc clusters m e s p) where
      abbrev last : Run rt OtelCollectorService
      last = (finish client equal r pc clusters m e s p).1

      abbrev start : Run rt OtelCollectorService
      start = record {
        obj = in_progress client equal r pc clusters m e s;
        world = checked client equal r pc clusters m e s;
      }

      finish_frame :
          (j : Kind) (b : ObjectKey)
          → same deployments (deployment_key ns) j b ≡ false
          → same services (service_key ns) j b ≡ false
          → mcp_view last.world j b ≡ mcp_view synced_world j b
      finish_frame j b hd hs =
          deploy_frame client equal r L ns pc p start j b hd hs
          ∙ check_prerequisites_frame L ns synced_world j b

      finish-secrets :
          (ref : LocalObjectReference)
          → IsSynced L P apart only_read ns r.pod_namespace synced_world ref
          → IsSynced L P apart only_read ns r.pod_namespace last.world ref
      finish-secrets ref before =
          let mcp_same =
            finish_frame secrets (record { namespace = ns; name = ref.name }) refl refl in
          let source : ObjectKey = record { namespace = r.pod_namespace; name = ref.name } in
          let platform_same =
            deploy_apart apart client equal r ns pc p start secrets source
            ∙ check_prerequisites_apart apart ns synced_world secrets source in
          record {
            present = rw mcp_same before.present;
            copied = rw (mcp_same, platform_same) before.copied;
          }

      finish-IsDeployed :
          (finish client equal r pc clusters m e s p).0 ≡ ok no_requeue
          → IsDeployed s.obj pc last.world
      finish-IsDeployed h =
          let stored = deploy-Stored client equal r L ns pc p start h in
          let judged = check_prerequisites-eq_verdict L ns synced_world steps.check_ok in
          let (cm, secret, at_cm, at_secret, at_hash) =
            verdict-ready ns (mcp_view synced_world config_maps (object_in ns config_map_name))
              (mcp_view synced_world secrets (object_in ns secret_name))
              (ap (λ (q : PrerequisiteResult). q.ready) (sym judged) ∙ stored.was_ready) in
          let hash = ap (λ (q : PrerequisiteResult). q.config_hash) judged ∙ at_hash in
          let old =
            existing_or deployments (mcp_view start.world deployments (deployment_key ns))
              (new_deployment ns) in
          record {
            namespace_exists =
                rw
                  (
                    finish_frame namespaces (key_of_namespace ns) refl refl,
                    sync-keeps_namespaces ns pc.spec.image_pull_secrets
                        (named client equal r pc clusters m e s) (key_of_namespace ns),
                  )
                  (reconcile_namespace-exists L ns s.world steps.namespace_ok);
            secrets_synced = All-map finish-secrets pc.spec.image_pull_secrets (
                sync-IsSynced ns pc.spec.image_pull_secrets (named client equal r pc clusters m e s)
                  steps.secrets_ok);
            cm = cm;
            secret = secret;
            has_config = finish_frame config_maps (object_in ns config_map_name) refl refl ∙ at_cm;
            has_secret = finish_frame secrets (object_in ns secret_name) refl refl ∙ at_secret;
            before_deployment = old;
            has_deployment =
                stored.deployment
                ∙ ap (λ (o : DeploymentOpts). some (set_deployment o old))
                    (opts-status "Reconciling" "Reconcile in progress" p.config_hash s.obj pc
                      ∙ ap (deployment_opts client equal r s.obj pc) hash);
            before_service =
                existing_or services (mcp_view start.world services (service_key ns))
                  (new_service ns);
            has_service = stored.service;
          }

    -- With a control plane at hand, lawful clients, and the platform and the control plane apart: when
    -- CreateOrUpdate returns no error and asks for no requeue, the collector is deployed.
    pub create_or_update-IsDeployed : run.0 ≡ ok no_requeue → IsDeployed s.obj pc run.1.world
    create_or_update-IsDeployed h =
        let (p, steps) = create_or_update-Steps client equal r pc clusters m e s h in
        rw steps.rest (finish-IsDeployed p steps (rw steps.rest at h))
