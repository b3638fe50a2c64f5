-- ===== src/Controller/Ending/Access.antt =====
-- What the reconciler learns of the access while the object is in deletion.
use service_provider_otel_co.Base.{
  ℕ, ◌≡◌, refl, inl, inr, Bool, true, false, some, pure, Meets, bind-Meets,
}
use service_provider_otel_co.Kube.Objects.{ObjectKey, CtrlResult}
use service_provider_otel_co.Kube.Client.{Runtime, Client}
use service_provider_otel_co.Kube.Laws.{View}
use service_provider_otel_co.Api.Service.{OtelCollectorServiceStatus, OtelCollectorService}
use service_provider_otel_co.Api.Config.{ProviderConfig}
use service_provider_otel_co.Spruntime.Api.{ClusterContext, ClusterAccessProvider, ObjectClient}
use service_provider_otel_co.Spruntime.Access.{
  Reply, after_reply, no_requeue, retrieve_secret_key, access_key, or_missing, add_clusters,
  clusters, in_deletion, workload_in_deletion, are_access_requests_in_deletion,
}
use service_provider_otel_co.Controller.Reconciler.{OtelCollectorServiceReconciler}
use service_provider_otel_co.Controller.Ending.{Present, Leaving, Ending}

module _ {rt : Runtime} {client : rt.Cluster → Client rt}
    {equal : OtelCollectorServiceStatus → OtelCollectorServiceStatus → Bool}
    {r : OtelCollectorServiceReconciler rt} {onboarding : ObjectClient rt OtelCollectorService}
    {car : ClusterAccessProvider rt} {pc : ProviderConfig} {m : rt.Cluster} {view : View rt}
    {req : ObjectKey} {present connected leaving : ℕ → rt.World → Type 0}
    {released gone : rt.World → Type 0}
    (K : Ending client equal r onboarding car pc m view req present connected leaving released
      gone) where
  present-read :
      (n : ℕ) (reply : Reply rt) (w : rt.World)
      → Present rt reply
      → present n w
      → Meets (λ b t. (b ≡ false) × present n t) (in_deletion rt reply w)
  unfolding in_deletion
  present-read n reply w (ar, is, unmarked) h = rw (is, unmarked) (refl, h)

  leaving-read :
      (n : ℕ) (reply : Reply rt) (w : rt.World)
      → Leaving rt reply
      → leaving n w
      → Meets (λ b t. (b ≡ true) × leaving n t) (in_deletion rt reply w)
  unfolding in_deletion
  leaving-read n reply w (inl (ar, is, (t, marked))) h = rw (is, marked) (refl, h)
  leaving-read n reply w (inr (e, is, missing)) h = rw (is, missing) (refl, h)

  -- The program sees whether the request is there.
  pub present-checked :
      (n : ℕ) (w : rt.World)
      → present n w
      → Meets (λ b t. (b ≡ false) × present n t) (are_access_requests_in_deletion car false req w)
  unfolding are_access_requests_in_deletion workload_in_deletion
  present-checked n w h =
      let (reply, still) = K.present_read n w h in
      bind-Meets (λ b t. (b ≡ false) × present n t) (λ b t. (b ≡ false) × present n t)
        (after_reply car false (car.mcp_access_request req) (in_deletion rt))
        (workload_in_deletion car false req) w (present-read n _ _ reply still)
        (λ b t (is, at). rw is (refl, at))

  pub leaving-checked :
      (n : ℕ) (w : rt.World)
      → leaving n w
      → Meets (λ b t. (b ≡ true) × leaving n t) (are_access_requests_in_deletion car false req w)
  unfolding are_access_requests_in_deletion workload_in_deletion
  leaving-checked n w h =
      let (reply, still) = K.leaving_read n w h in
      bind-Meets (λ b t. (b ≡ true) × leaving n t) (λ b t. (b ≡ true) × leaving n t)
        (after_reply car false (car.mcp_access_request req) (in_deletion rt))
        (workload_in_deletion car false req) w (leaving-read n _ _ reply still)
        (λ b t (is, at). rw is (refl, at))

  clusters-added :
      (n : ℕ) (w : rt.World)
      → connected n w
      → Meets (λ ctx t. (ctx.mcp_cluster ≡ some m) × present n t) (add_clusters car false req w)
  unfolding add_clusters or_missing access_key retrieve_secret_key
  clusters-added n w h =
      bind-Meets (λ c t. (c ≡ some m) × connected n t) _ (car.mcp_cluster req) _ w (K.cluster n w h)
        (λ c t (is, connected).
          let (ar, reply, still) = K.granted n t connected in rw (is, reply) (refl, still))

  abbrev pub Given : ℕ → ClusterContext rt × CtrlResult → rt.World → Type 0
  Given n found w = (found.1 ≡ no_requeue) × (found.0.mcp_cluster ≡ some m) × present n w

  pub clusters-Given :
      (n : ℕ) (w : rt.World) → present n w → Meets (Given n) (clusters car false req w)
  unfolding clusters
  clusters-Given n w h =
      bind-Meets (λ res t. (res ≡ no_requeue) × connected n t) (Given n) (car.reconcile req) _ w
        (K.set_up n w h)
        (λ res t (is, connected). rw is (
          bind-Meets (λ (ctx : ClusterContext rt) t. (ctx.mcp_cluster ≡ some m) × present n t)
            (Given n) (add_clusters car false req) (λ ctx. pure (ctx, no_requeue)) t
            (clusters-added n t connected) (λ ctx u (has, still). (refl, has, still))))
