-- ===== src/Controller/Ending/Revoked.antt =====
-- The end of a deletion: the access is revoked, and then the finalizer dropped.
use service_provider_otel_co.Base.{
  ℕ, zero, suc, ◌≡◌, ◌⊎◌, refl, Bool, true, false, Result, ok, err, Meets, bind-Meets,
}
use service_provider_otel_co.Kube.Objects.{ObjectKey, CtrlResult}
use service_provider_otel_co.Kube.Client.{Runtime, Call, Client, Run, calling}
use service_provider_otel_co.Kube.Laws.{View}
use service_provider_otel_co.Api.Service.{
  OtelCollectorServiceStatus, OtelCollectorService, otel_api,
}
use service_provider_otel_co.Api.Config.{ProviderConfig, otel_configs}
use service_provider_otel_co.Spruntime.Api.{ClusterAccessProvider, ObjectClient}
use service_provider_otel_co.Spruntime.Access.{requeues}
use service_provider_otel_co.Spruntime.Reconciler
use service_provider_otel_co.Spruntime.Reconciler.{SpReconciler}
use service_provider_otel_co.Controller.Reconciler.{OtelCollectorServiceReconciler}
use service_provider_otel_co.Controller.Ending.{Ending, provider}

module _ {rt : Runtime} {T A : Type 0} where
  -- What a call of a cluster meets, it meets inside a method.
  pub calling-Meets :
      (P : A → rt.World → Type 0) (call : Call rt A) (s : Run rt T)
      → Meets P (call s.world)
      → Meets (λ a t. P a t.world) (calling call s)
  calling-Meets P call s h = go (call s.world) h
    where
      go :
          (x : Result rt.Error A × rt.World)
          → Meets P x
          → Meets (λ a t. P a t.world) (x.0, record s { world = x.1 })
      go (ok a, w) h = h
      go (err e, w) h = h

module _ {rt : Runtime} {client : rt.Cluster → Client rt}
    {equal : OtelCollectorServiceStatus → OtelCollectorServiceStatus → Bool}
    {r : OtelCollectorServiceReconciler rt} {onboarding : ObjectClient rt OtelCollectorService}
    {car : ClusterAccessProvider rt} {pc : ProviderConfig} {m : rt.Cluster} {view : View rt}
    {req : ObjectKey} {present connected leaving : ℕ → rt.World → Type 0}
    {released gone : rt.World → Type 0}
    (K : Ending client equal r onboarding car pc m view req present connected leaving released
      gone) where
  abbrev sp : SpReconciler rt (otel_api equal) otel_configs
  sp = provider client equal r onboarding car pc

  -- The object is in deletion, and its access request is there, or not any more.
  abbrev pub Waits : ℕ → rt.World → Type 0
  Waits n w = present n w ⊎ leaving n w

  -- What a run ends with, where the access provider asks `n` more times to be called again.
  abbrev pub Round : ℕ → CtrlResult → rt.World → Type 0
  Round zero res w = gone w
  Round (suc n) res w = (requeues res ≡ true) × leaving n w

  -- The finalizer goes last.
  finalizer-dropped :
      (s : Run rt OtelCollectorService)
      → released s.world
      → Meets (λ res t. gone t.world) (Reconciler.drop_finalizer sp s)
  unfolding Reconciler.drop_finalizer
  finalizer-dropped s h =
      bind-Meets (λ _ t. gone t.world) (λ res t. gone t.world) onboarding.update _ _
        (K.update_frees _ _ h refl) (λ _ t g. g)

  pub access-removed :
      (n : ℕ) (s : Run rt OtelCollectorService)
      → Waits n s.world
      → Meets (λ res t. Round n res t.world) (Reconciler.remove_access sp req s)
  unfolding Reconciler.remove_access
  access-removed zero s h =
      bind-Meets (λ res t. (requeues res ≡ false) × released t.world) _
        (calling (car.reconcile_delete req)) _ s
        (calling-Meets _ (car.reconcile_delete req) s (K.revoke_last s.world h))
        (λ res t (stop, done). rw stop (finalizer-dropped t done))
  access-removed (suc n) s h =
      bind-Meets (λ res t. (requeues res ≡ true) × leaving n t.world) _
        (calling (car.reconcile_delete req)) _ s
        (calling-Meets _ (car.reconcile_delete req) s (K.revoke_more n s.world h))
        (λ res t (more, waits). rw more (more, waits))
