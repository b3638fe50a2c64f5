-- ===== src/Controller/Ending/Deleted.antt =====
-- One run of the deletion, for the object that was found.
use mathlib.Core.Path.{subst}
use service_provider_otel_co.Base.{
  ℕ, zero, suc, ◌≡◌, refl, sym, inl, inr, Bool, true, false, Option, none, some, Result, ok, try,
  ◌>>=◌, Meets, bind-Meets, Meets-map, try-Meets,
}
use service_provider_otel_co.Kube.Objects.{ObjectKey, CtrlResult}
use service_provider_otel_co.Kube.Client.{Runtime, Client, Run, calling}
use service_provider_otel_co.Kube.Laws.{View}
use service_provider_otel_co.Api.Service.{
  OtelCollectorServiceStatus, OtelCollectorService, otel_api,
}
use service_provider_otel_co.Api.Config.{ProviderConfig, otel_configs}
use service_provider_otel_co.Spruntime.Api.{ClusterContext, ClusterAccessProvider, ObjectClient}
use service_provider_otel_co.Spruntime.Access.{
  no_requeue, clusters, are_access_requests_in_deletion,
}
use service_provider_otel_co.Spruntime.Reconciler
use service_provider_otel_co.Spruntime.Reconciler.{SpReconciler}
use service_provider_otel_co.Spruntime.Reconciler.Order.{report-Keeps, report-ok}
use service_provider_otel_co.Controller.Reconciler.{OtelCollectorServiceReconciler, delete}
use service_provider_otel_co.Controller.Finalized.{delete_managed_resources-Keeps}
use service_provider_otel_co.Controller.Removal.{delete-cleans, delete-returns}
use service_provider_otel_co.Controller.Ending.{Ending, provider}
use service_provider_otel_co.Controller.Ending.Access.{
  Given, clusters-Given, present-checked, leaving-checked,
}
use service_provider_otel_co.Controller.Ending.Revoked.{Round, Waits, access-removed, calling-Meets}

module _ {rt : Runtime} {client : rt.Cluster → Client rt}
    {equal : OtelCollectorServiceStatus → OtelCollectorServiceStatus → Bool}
    {r : OtelCollectorServiceReconciler rt} {onboarding : ObjectClient rt OtelCollectorService}
    {car : ClusterAccessProvider rt} {pc : ProviderConfig} {m : rt.Cluster} {view : View rt}
    {req : ObjectKey} {present connected leaving : ℕ → rt.World → Type 0}
    {released gone : rt.World → Type 0}
    (K : Ending client equal r onboarding car pc m view req present connected leaving released
      gone) where
  abbrev sp : SpReconciler rt (otel_api equal) otel_configs
  sp = provider client equal r onboarding car pc

  module _ (o : OtelCollectorService) (n : ℕ) where
    -- The cleanup is done, or was done before, and does not end the run.
    abbrev GoesOn : Option CtrlResult → Run rt OtelCollectorService → Type 0
    GoesOn early t = (early ≡ none) × Waits K n t.world

    -- What the program may see of the access request.
    abbrev Seen : Bool → rt.World → Type 0
    Seen true w = leaving n w
    Seen false w = present n w

    checked :
        (w : rt.World) → Waits K n w → Meets Seen (are_access_requests_in_deletion car false req w)
    checked w (inl h) =
        Meets-map (λ b t. (b ≡ false) × present n t) Seen
          (are_access_requests_in_deletion car false req w) (λ b t (is, at). rw is at)
          (present-checked K n w h)
    checked w (inr h) =
        Meets-map (λ b t. (b ≡ true) × leaving n t) Seen
          (are_access_requests_in_deletion car false req w) (λ b t (is, at). rw is at)
          (leaving-checked K n w h)

    domain-deleted :
        (ctx : ClusterContext rt) (s : Run rt OtelCollectorService)
        → ctx.mcp_cluster ≡ some m
        → present n s.world
        → Meets GoesOn (Reconciler.delete_domain sp o pc ctx s)
    unfolding Reconciler.delete_domain
    domain-deleted ctx s has h =
        let (done, _, _) = delete-returns client equal r K.lawful pc ctx has K.serves s in
        let waits : present n (delete client equal r pc ctx s).1.world =
          rw (delete-cleans client equal r K.lawful pc ctx has s) (
            (delete_managed_resources-Keeps (client m) (present n) (K.get_present n)
                (K.delete_present n) _).at
              s.world h) in
        let t = (delete client equal r pc ctx s).1 in
        rw (done, report-ok sp (ok no_requeue) o t)
          (
            refl,
            inl ((report-Keeps sp (present n) (ok no_requeue) o (K.patch_present n o)).at t waits),
          )

    -- A request that is there is found so, and the cleanup is done; otherwise it was done before.
    cleanup-done :
        (b : Bool) (s : Run rt OtelCollectorService)
        → Seen b s.world
        → Meets GoesOn (Reconciler.cleanup sp req o pc b s)
    unfolding Reconciler.cleanup Reconciler.cleanup_after
    cleanup-done true s h = (refl, inr h)
    cleanup-done false s h =
        bind-Meets
          (λ found t. (x : ClusterContext rt × CtrlResult) × (found ≡ ok x) × Given K n x t.world)
          GoesOn (try (calling (clusters car false req))) (Reconciler.cleanup_after sp o pc) s
          (try-Meets (λ found t. Given K n found t.world) (calling (clusters car false req)) s
            (calling-Meets (Given K n) (clusters car false req) s (clusters-Given K n s.world h)))
          (λ found t (x, is, (stop, has, waits)). rw (is, stop) (domain-deleted x.0 t has waits))

    -- `delete` for the object's key.
    abbrev delete_by :
        ObjectKey
        → Run rt OtelCollectorService
        → Result rt.Error CtrlResult × Run rt OtelCollectorService
    delete_by key = (do
      going ← calling (are_access_requests_in_deletion car false key)
      early ← Reconciler.cleanup sp key o pc going
      Reconciler.leave_or sp early (Reconciler.remove_access sp key))

    deleted_by :
        (s : Run rt OtelCollectorService)
        → Waits K n s.world
        → Meets (λ res t. Round K n res t.world) (delete_by req s)
    unfolding Reconciler.leave_or
    deleted_by s h =
        bind-Meets (λ b t. Seen b t.world) _
          (calling (are_access_requests_in_deletion car false req)) _ s
          (calling-Meets Seen (are_access_requests_in_deletion car false req) s (checked s.world h))
          (λ b t waits.
            bind-Meets GoesOn _ (Reconciler.cleanup sp req o pc b) _ t (cleanup-done b t waits)
              (λ early u (is, still). rw is (access-removed K n u still)))

    object-deleted :
        (w : rt.World)
        → o.metadata.key ≡ req
        → Waits K n w
        → Meets
            (λ res t. Round K n res t.world)
            (Reconciler.delete sp pc (record { obj = o; world = w }))
    unfolding Reconciler.delete
    object-deleted w key h =
        subst
          (λ k.
            Meets (λ res t. Round K n res t.world) (delete_by k (record { obj = o; world = w })))
          (sym key) (deleted_by (record { obj = o; world = w }) h)

    -- What the run makes of the result.
    polled :
        (k : ℕ) (res : CtrlResult) (w : rt.World)
        → Round K k res w
        → Round K k (Reconciler.or_poll sp pc res) w
    unfolding Reconciler.or_poll
    polled zero res w h = h
    polled (suc k) res w (more, waits) = rw more (more, waits)

    pub object-reconciled :
        (w : rt.World)
        → (otel_api equal).is_deleted o ≡ true
        → o.metadata.key ≡ req
        → Waits K n w
        → Meets
            (λ res t. Round K n res t.world)
            (Reconciler.reconcile_object sp o (some pc) (record { obj = o; world = w }))
    unfolding Reconciler.reconcile_object Reconciler.core
    object-reconciled w deleted key h = rw deleted (
        bind-Meets (λ res t. Round K n res t.world) _ (Reconciler.delete sp pc) _
          (record { obj = o; world = w }) (object-deleted w key h)
          (λ res t ends. polled n res t.world ends))
