-- ===== src/Controller/Outcome.antt =====
-- What CreateOrUpdate returns and reports, on every path and for any behaviour of the clusters.
use service_provider_otel_co.Base.{
  String, ◌≡◌, refl, Bool, some, false, arith, Result, ok, err, continue, ◌>>=◌, Bool-cases, ◌⊎◌,
  inl, inr,
}
use service_provider_otel_co.Kube.Objects.{CtrlResult}
use service_provider_otel_co.Kube.Client.{Runtime, Call, Step, calling, Client, Run}
use service_provider_otel_co.Api.Service.{
  OtelCollectorServiceStatus, OtelCollectorService, otel_api,
}
use service_provider_otel_co.Api.Config.{ProviderConfig}
use service_provider_otel_co.Spruntime.Api.{ClusterContext}
use service_provider_otel_co.Spruntime.Access.{no_requeue}
use service_provider_otel_co.Spruntime.Status.{status_progressing, status_ready}
use service_provider_otel_co.Resources.Prerequisites.{PrerequisiteResult, check_prerequisites}
use service_provider_otel_co.Resources.Namespace.{reconcile_namespace}
use service_provider_otel_co.Controller.Resolve.{resolve_namespace}
use service_provider_otel_co.Controller.Reconciler.{
  OtelCollectorServiceReconciler, default_requeue_interval, sync_pull_secrets, mcp_client, deploy,
  create_or_update,
}

module _ {rt : Runtime} (client : rt.Cluster → Client rt)
    (equal : OtelCollectorServiceStatus → OtelCollectorServiceStatus → Bool)
    (r : OtelCollectorServiceReconciler rt) where
  abbrev after_30s : CtrlResult
  after_30s = record { requeue = false; requeue_after = default_requeue_interval }

  -- How a run that began its work with the object `o` may end: with the status Ready and no requeue;
  -- waiting, with a requeue after 30 seconds; or with an error, and the status as it was.
  abbrev pub Ends :
      OtelCollectorService → Result rt.Error CtrlResult → OtelCollectorService → Type 0
  Ends o (err e) new = new ≡ o
  Ends o (ok res) new =
      ((res ≡ no_requeue) × (new ≡ status_ready rt (otel_api equal) o))
      ⊎ ((res ≡ after_30s)
          × ((message : String) × (new
                ≡ status_progressing rt (otel_api equal) "WaitingForPrerequisites" message o)))

  deploy-Ends :
      (c : Client rt) (ns : String) (pc : ProviderConfig) (p : PrerequisiteResult)
      (s : Run rt OtelCollectorService)
      → Ends s.obj (deploy client equal r c ns pc p s).0 (deploy client equal r c ns pc p s).1.obj
  unfolding deploy
  deploy-Ends c ns pc p s = elim (Bool-cases p.ready) [
    | inl e ↦ ground arith
    | inr e ↦ rw e (inr (refl, (p.message, refl)))
  ]

  -- A call on a cluster in front of code that ends so.
  calling-Ends :
      {A : Type 0} (o : OtelCollectorService) (call : Call rt A)
      (f : A → Step rt OtelCollectorService CtrlResult) (w : rt.World)
      → ((a : A) (w' : rt.World)
          → let run = f a (record { obj = o; world = w' }) in Ends o run.0 run.1.obj)
      → let run = (calling call >>= f) (record { obj = o; world = w }) in Ends o run.0 run.1.obj
  calling-Ends {A} o call f w ends = go (call w).0 (call w).1
    where
      go :
          (x : Result rt.Error A) (w' : rt.World)
          → let run = continue x f (record { obj = o; world = w' }) in Ends o run.0 run.1.obj
      go (ok a) w' = ends a w'
      go (err e) w' = refl

  -- With a control plane at hand, and whatever the clusters reply, every run of CreateOrUpdate ends with
  -- the status Ready and no requeue, waiting with a requeue after 30 seconds, or with an error and the
  -- status in progress.
  pub create_or_update-Ends :
      (pc : ProviderConfig) (clusters : ClusterContext rt) (m : rt.Cluster)
      → clusters.mcp_cluster ≡ some m
      → (s : Run rt OtelCollectorService)
      → let run = create_or_update client equal r pc clusters s in
        Ends
          (status_progressing rt (otel_api equal) "Reconciling" "Reconcile in progress" s.obj)
          run.0
          run.1.obj
  unfolding create_or_update
  create_or_update-Ends pc clusters m e s =
      let o : OtelCollectorService =
        status_progressing rt (otel_api equal) "Reconciling" "Reconcile in progress" s.obj in
      let mcp : Client rt = client m in
      let ns : String = resolve_namespace o pc in
      let first : Call rt Unit = reconcile_namespace mcp ns in
      let second : Call rt Unit =
        sync_pull_secrets client equal r mcp ns pc.spec.image_pull_secrets in
      let third : Call rt PrerequisiteResult = check_prerequisites mcp ns in
      let last : PrerequisiteResult → Step rt OtelCollectorService CtrlResult =
        deploy client equal r mcp ns pc in
      rw (e, mcp_client)
        (calling-Ends o first (λ _. calling second >>= λ _. calling third >>= last) s.world
          (λ _ w₁.
            calling-Ends o second (λ _. calling third >>= last) w₁
              (λ _ w₂. calling-Ends o third last w₂ (λ p w₃. deploy-Ends mcp ns pc p _))))
