-- ===== src/Controller/Returns.antt =====
-- When CreateOrUpdate gets through.
use service_provider_otel_co.Base.{
  String, ◌≡◌, refl, ◌∙◌, Bool, true, false, some, List, [], ◌∷◌, All, All-of, All-map, arith, ok,
  Option-cases, inl, inr, text_eq,
}
use service_provider_otel_co.Kube.Objects.{
  ObjectKey, LocalObjectReference, ConfigMap, Secret, Namespace,
}
use service_provider_otel_co.Kube.Client.{
  Runtime, Kind, namespaces, config_maps, secrets, deployments, services, Client, Run,
}
use service_provider_otel_co.Kube.Laws.{same, View, IsLawful, Ignores, Serves}
use service_provider_otel_co.Api.Service.{
  OtelCollectorServiceStatus, OtelCollectorService, otel_api,
}
use service_provider_otel_co.Api.Config.{ProviderConfig}
use service_provider_otel_co.Spruntime.Api.{ClusterContext}
use service_provider_otel_co.Spruntime.Access.{no_requeue}
use service_provider_otel_co.Spruntime.Status.{status_progressing}
use service_provider_otel_co.Resources.Constants.{config_map_name, secret_name}
use service_provider_otel_co.Resources.Namespace.{reconcile_namespace}
use service_provider_otel_co.Resources.Namespace.Exists.{
  key_of_namespace, reconcile_namespace-exists, reconcile_namespace_frame,
  reconcile_namespace-returns,
}
use service_provider_otel_co.Resources.PullSecrets.Synced.{pull_secrets_frame}
use service_provider_otel_co.Resources.PullSecrets.Synced.Returns.{HasSource, pull_secrets-returns}
use service_provider_otel_co.Resources.Prerequisites.{
  PrerequisiteResult, verdict, check_prerequisites,
}
use service_provider_otel_co.Resources.Prerequisites.Exact.{object_in, check_prerequisites_frame}
use service_provider_otel_co.Resources.Prerequisites.Returns.{check_prerequisites-returns}
use service_provider_otel_co.Resources.Deployment.{
  set_deployment, new_deployment, reconcile_deployment,
}
use service_provider_otel_co.Resources.Deployment.Desired.{reconcile_deployment_frame}
use service_provider_otel_co.Resources.Service.{set_service, new_service, reconcile_service}
use service_provider_otel_co.Controller.Resolve.{resolve_namespace}
use service_provider_otel_co.Controller.Apart.{namespace_apart}
use service_provider_otel_co.Controller.Reconciler.{
  OtelCollectorServiceReconciler, deployment_opts, sync_pull_secrets, deploy, create_or_update,
}

module _ {rt : Runtime} (client : rt.Cluster → Client rt)
    (equal : OtelCollectorServiceStatus → OtelCollectorServiceStatus → Bool)
    (r : OtelCollectorServiceReconciler rt) (m : rt.Cluster) {mcp_view platform_view : View rt}
    (L : IsLawful (client m) mcp_view) (P : IsLawful (client r.platform_cluster) platform_view)
    (apart : Ignores (client m) platform_view)
    (only_read : (k : Kind) (a : ObjectKey) (w : rt.World) (j : Kind) (b : ObjectKey)
      → mcp_view ((client r.platform_cluster).get k a w).1 j b ≡ mcp_view w j b)
    (S : Serves (client m) mcp_view) (Q : Serves (client r.platform_cluster) platform_view) where
  -- The user has written the config and the secret, the platform has the pull secrets, and none of
  -- these has the name of the user's secret.
  pub record HasPrerequisites (ns : String) (refs : List LocalObjectReference) (w : rt.World)
      : Type 0 where
    pub cm : ConfigMap
    pub secret : Secret
    pub has_config : mcp_view w config_maps (object_in ns config_map_name) ≡ some cm
    pub has_secret : mcp_view w secrets (object_in ns secret_name) ≡ some secret
    pub sources : All (HasSource L P apart only_read S Q ns r.pod_namespace w) refs
    pub distinct : All (λ ref. text_eq ref.name secret_name ≡ false) refs

  sync-returns :
      (ns : String) (refs : List LocalObjectReference) (w : rt.World) {n : Namespace}
      → mcp_view w namespaces (key_of_namespace ns) ≡ some n
      → All (HasSource L P apart only_read S Q ns r.pod_namespace w) refs
      → (sync_pull_secrets client equal r (client m) ns refs w).0 ≡ ok tt
  unfolding sync_pull_secrets
  sync-returns ns [] w place from = refl
  sync-returns ns (ref ∷ refs) w place from =
      pull_secrets-returns L P apart only_read S Q ns r.pod_namespace (ref ∷ refs) w place from

  sync_frame :
      (ns : String) (refs : List LocalObjectReference) (w : rt.World) (j : Kind) (b : ObjectKey)
      → All (λ ref. same secrets (record { namespace = ns; name = ref.name }) j b ≡ false) refs
      → mcp_view (sync_pull_secrets client equal r (client m) ns refs w).1 j b ≡ mcp_view w j b
  unfolding sync_pull_secrets
  sync_frame ns [] w j b h = refl
  sync_frame ns (ref ∷ refs) w j b h =
      pull_secrets_frame L P apart only_read ns r.pod_namespace (ref ∷ refs) w j b h

  deploy-returns :
      (ns : String) (pc : ProviderConfig) (p : PrerequisiteResult) (s : Run rt OtelCollectorService)
      {n : Namespace}
      → p.ready ≡ true
      → mcp_view s.world namespaces (key_of_namespace ns) ≡ some n
      → (deploy client equal r (client m) ns pc p s).0 ≡ ok no_requeue
  unfolding deploy reconcile_deployment reconcile_service set_deployment set_service
  deploy-returns ns pc p s {n} ready place =
      let opts = deployment_opts client equal r s.obj pc p.config_hash in
      let w' : rt.World = (reconcile_deployment (client m) ns opts s.world).1 in
      ground (
        arith,
        S.create_or_update_placed deployments (new_deployment ns) (set_deployment opts) s.world
            (inr (n, place)) (λ x. refl),
        S.create_or_update_placed services (new_service ns) set_service w'
            (inr (
              n,
              reconcile_deployment_frame L ns opts s.world namespaces (key_of_namespace ns) refl
                  ∙ place,
            ))
            (λ x. refl),
      )

  module _ (pc : ProviderConfig) (clusters : ClusterContext rt) (e : clusters.mcp_cluster ≡ some m)
      (s : Run rt OtelCollectorService) where
    abbrev ns : String
    ns = resolve_namespace s.obj pc

    abbrev refs : List LocalObjectReference
    refs = pc.spec.image_pull_secrets

    abbrev named : rt.World
    named = (reconcile_namespace (client m) ns s.world).1

    abbrev synced : rt.World
    synced = (sync_pull_secrets client equal r (client m) ns refs named).1

    abbrev checked : rt.World
    checked = (check_prerequisites (client m) ns synced).1

    module _ (h : HasPrerequisites ns refs s.world) where
      named-sources : All (HasSource L P apart only_read S Q ns r.pod_namespace named) refs
      named-sources =
          All-map
            (λ ref has.
              rw
                (namespace_apart apart ns s.world secrets
                  (record { namespace = r.pod_namespace; name = ref.name }))
                has)
            refs h.sources

      synced-config : mcp_view synced config_maps (object_in ns config_map_name) ≡ some h.cm
      synced-config =
          sync_frame ns refs named config_maps (object_in ns config_map_name)
            (All-of (λ _. refl) refs)
          ∙ reconcile_namespace_frame L ns s.world config_maps (object_in ns config_map_name) refl
          ∙ h.has_config

      synced-secret : mcp_view synced secrets (object_in ns secret_name) ≡ some h.secret
      synced-secret =
          sync_frame ns refs named secrets (object_in ns secret_name)
            (All-map (λ ref ne. ground (arith, ne)) refs h.distinct)
          ∙ reconcile_namespace_frame L ns s.world secrets (object_in ns secret_name) refl
          ∙ h.has_secret

      check-ready :
          (check_prerequisites (client m) ns synced).0
          ≡ ok (verdict (client m) ns (some h.cm) (some h.secret))
      check-ready = rw (check_prerequisites-returns L S ns synced, synced-config, synced-secret)

      verdict-ready : (verdict (client m) ns (some h.cm) (some h.secret)).ready ≡ true
      unfolding verdict
      verdict-ready = refl

      finish-returns :
          {n : Namespace}
          → mcp_view named namespaces (key_of_namespace ns) ≡ some n
          → (create_or_update client equal r pc clusters s).0 ≡ ok no_requeue
      unfolding create_or_update resolve_namespace status_progressing
      finish-returns place = ground (
        arith,
        e,
        reconcile_namespace-returns L S ns s.world,
        sync-returns ns refs named place named-sources,
        check-ready,
        deploy-returns ns pc (verdict (client m) ns (some h.cm) (some h.secret))
            (record {
              obj =
                  status_progressing rt (otel_api equal) "Reconciling" "Reconcile in progress"
                    s.obj;
              world = checked;
            })
            verdict-ready
            (check_prerequisites_frame L ns synced namespaces (key_of_namespace ns)
              ∙ sync_frame ns refs named namespaces (key_of_namespace ns) (All-of (λ _. refl) refs)
              ∙ place),
      )

    -- On clusters that answer, with the same conditions on the clients, and with the prerequisites at
    -- hand, CreateOrUpdate returns without an error and without a requeue.
    pub create_or_update-returns :
        HasPrerequisites ns refs s.world
        → (create_or_update client equal r pc clusters s).0 ≡ ok no_requeue
    create_or_update-returns h =
        let there =
          reconcile_namespace-exists L ns s.world (reconcile_namespace-returns L S ns s.world) in
        elim (Option-cases (mcp_view named namespaces (key_of_namespace ns))) [
          | inl none_there ↦ absurd (cc (none_there, there))
          | inr (n, place) ↦ finish-returns h place
        ]
