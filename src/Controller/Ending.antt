-- ===== src/Controller/Ending.antt =====
-- The deletion of the collector's object by repeated runs of the generic reconciler, on clusters that answer.
pub mod Access
pub mod Revoked
pub mod Deleted
pub mod Terminates
use service_provider_otel_co.Base.{
  ℕ, zero, suc, String, ◌≡◌, ◌⊎◌, Bool, true, false, none, some, List, ◌>>=◌, Keeps, Meets,
}
use service_provider_otel_co.Kube.Objects.{ObjectKey, AccessRequest}
use service_provider_otel_co.Kube.Client.{Runtime, Kind, Object, Client, Run}
use service_provider_otel_co.Kube.Laws.{View, IsLawful, Serves}
use service_provider_otel_co.Api.Service.{
  OtelCollectorServiceStatus, OtelCollectorService, otel_api, finalizer,
}
use service_provider_otel_co.Api.Config.{ProviderConfig, otel_configs}
use service_provider_otel_co.Spruntime.Api.{ClusterAccessProvider, ObjectClient}
use service_provider_otel_co.Spruntime.Access.{Reply, no_requeue, requeues}
use service_provider_otel_co.Spruntime.Reconciler
use service_provider_otel_co.Spruntime.Reconciler.{SpReconciler}
use service_provider_otel_co.Spruntime.Reconciler.Order.{In}
use service_provider_otel_co.Controller.Reconciler.{OtelCollectorServiceReconciler, delete}
use service_provider_otel_co.Controller.Provider.{otel_provider}

-- A reply on an access request that is there and not in deletion.
abbrev pub Present : (rt : Runtime) → Reply rt → Type 0
Present rt reply = (ar : AccessRequest) × (reply ≡ (some ar, none)) × (ar.deletion_timestamp ≡ none)

-- A reply on an access request that is in deletion, or that there is none.
abbrev pub Leaving : (rt : Runtime) → Reply rt → Type 0
Leaving rt reply =
    ((ar : AccessRequest) × (reply ≡ (some ar, none))
      × ((t : ℕ) × (ar.deletion_timestamp ≡ some t)))
    ⊎ ((e : rt.Error) × (reply ≡ (none, some e)) × (rt.is_not_found e ≡ true))

module _ {rt : Runtime} (client : rt.Cluster → Client rt)
    (equal : OtelCollectorServiceStatus → OtelCollectorServiceStatus → Bool)
    (r : OtelCollectorServiceReconciler rt) (onboarding : ObjectClient rt OtelCollectorService)
    (car : ClusterAccessProvider rt) (pc : ProviderConfig) where
  abbrev pub provider : SpReconciler rt (otel_api equal) otel_configs
  provider = otel_provider client equal r onboarding car (some pc)

  -- The clusters while the object of `req` is in deletion, and the access provider still asks `n` times to be
  -- called again when it is to revoke the access. In `present n` the access request is there, and `connected n`
  -- is such a state once the access is set up; in `leaving n` the request is in deletion or missing, and the
  -- access is not set up again. In `released` the access is revoked, and in `gone` the object has lost its
  -- finalizer.
  pub record Ending (m : rt.Cluster) (view : View rt) (req : ObjectKey)
      (present connected leaving : ℕ → rt.World → Type 0) (released gone : rt.World → Type 0)
      : Type 0 where
    pub lawful : IsLawful (client m) view
    pub serves : Serves (client m) view
    pub found_present :
        (n : ℕ) (w : rt.World)
        → present n w
        → Meets
            (λ o t. ((otel_api equal).is_deleted o ≡ true) × (o.metadata.key ≡ req) × present n t)
            (onboarding.get req w)
    pub found_leaving :
        (n : ℕ) (w : rt.World)
        → leaving n w
        → Meets
            (λ o t. ((otel_api equal).is_deleted o ≡ true) × (o.metadata.key ≡ req) × leaving n t)
            (onboarding.get req w)
    pub present_read :
        (n : ℕ) (w : rt.World)
        → present n w
        → Present rt (car.mcp_access_request req w).0 × present n (car.mcp_access_request req w).1
    pub leaving_read :
        (n : ℕ) (w : rt.World)
        → leaving n w
        → Leaving rt (car.mcp_access_request req w).0 × leaving n (car.mcp_access_request req w).1
    pub set_up :
        (n : ℕ) (w : rt.World)
        → present n w
        → Meets (λ res t. (res ≡ no_requeue) × connected n t) (car.reconcile req w)
    pub cluster :
        (n : ℕ) (w : rt.World)
        → connected n w
        → Meets (λ c t. (c ≡ some m) × connected n t) (car.mcp_cluster req w)
    pub granted :
        (n : ℕ) (w : rt.World)
        → connected n w
        → (ar : AccessRequest) × ((car.mcp_access_request req w).0 ≡ (some ar, none))
          × present n (car.mcp_access_request req w).1
    pub get_present : (n : ℕ) (k : Kind) (a : ObjectKey) → Keeps (present n) ((client m).get k a)
    pub delete_present :
        (n : ℕ) (k : Kind) (x : Object k) → Keeps (present n) ((client m).delete k x)
    pub patch_present :
        (n : ℕ) (old : OtelCollectorService)
        → Keeps (In rt OtelCollectorService (present n)) (onboarding.patch_status old)
    pub revoke_more :
        (n : ℕ) (w : rt.World)
        → present (suc n) w ⊎ leaving (suc n) w
        → Meets (λ res t. (requeues res ≡ true) × leaving n t) (car.reconcile_delete req w)
    pub revoke_last :
        (w : rt.World)
        → present zero w ⊎ leaving zero w
        → Meets (λ res t. (requeues res ≡ false) × released t) (car.reconcile_delete req w)
    pub update_frees :
        (s : Run rt OtelCollectorService) (before : List String)
        → released s.world
        → s.obj.metadata.finalizers ≡ rt.remove_finalizer before (finalizer s.obj)
        → Meets (λ _ t. gone t.world) (onboarding.update s)

  -- `n` runs that ask to be called again, each by itself, and then one that ends with the object gone.
  abbrev pub Terminates : ObjectKey → (rt.World → Type 0) → ℕ → rt.World → Type 0
  Terminates req gone zero w = Meets (λ res t. gone t) (Reconciler.reconcile provider req w)
  Terminates req gone (suc n) w =
      Meets (λ res t. (requeues res ≡ true) × Terminates req gone n t)
        (Reconciler.reconcile provider req w)
