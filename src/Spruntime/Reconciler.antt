-- ===== src/Spruntime/Reconciler.antt =====
-- pkg/spruntime/spreconciler.go: SPReconciler and its methods.
pub mod Order
pub mod Outcome
pub mod Granted
pub mod Unfinished
use service_provider_otel_co.Base.{
  String, Bool, true, false, Option, none, some, Result, ok, err, try, pure, raise, lift, ◌>>=◌,
  ◌>>◌, if◌then◌else◌,
}
use service_provider_otel_co.Kube.Objects.{ObjectKey, CtrlResult}
use service_provider_otel_co.Kube.Client.{Runtime, Call, Step, calling, running, reading, modify}
use service_provider_otel_co.Spruntime.Api.{
  ServiceProviderApi, ProviderConfigApi, ClusterContext, ClusterAccessProvider,
  ServiceProviderReconciler, ObjectClient,
}
use service_provider_otel_co.Spruntime.Status.{status_progressing}
use service_provider_otel_co.Spruntime.Access.{
  no_requeue, requeues, are_access_requests_in_deletion, clusters,
}

-- `onboarding` is what `onboardingCluster.Client()` offers, and `provider_config` what the atomic
-- pointer holds at the time of the call.
pub record SpReconciler (rt : Runtime) (api : ServiceProviderApi) (pcs : ProviderConfigApi)
    : Type 0 where
  pub onboarding : ObjectClient rt api.Obj
  pub cluster_access : ClusterAccessProvider rt
  pub service_provider : ServiceProviderReconciler rt api.Obj pcs.Config
  pub provider_config : Option pcs.Config
  pub with_workload_cluster : Bool
  pub empty_obj : api.Obj

-- What `Reconcile` reports where it has no config.
abbrev pub config_missing : String
config_missing = "provider config missing"

module _ {rt : Runtime} {api : ServiceProviderApi} {pcs : ProviderConfigApi}
    (r : SpReconciler rt api pcs) where
  open api use {Obj}
  open pcs use {Config}

  -- A failed patch is logged, and not returned.
  unfoldable pub update_status : Obj → Step rt Obj Unit
  update_status old = do
    equal ← reading (λ new. api.status_equal (api.get_status old) (api.get_status new))
    if equal then pure tt else do try (r.onboarding.patch_status old); pure tt

  -- The update of the status behind a call that came back with `res`; after a panic there is none.
  unfoldable pub report : {A : Type 0} → Result rt.Error A → Obj → Step rt Obj Unit
  report (ok a) old = update_status old
  report (err e) old = if rt.is_panic e then pure tt else update_status old

  -- The object's status after a failed or an unfinished setup of the clusters; `none` is no error.
  unfoldable pub progressing_and : {A : Type 0} → String → String → Step rt Obj A → Step rt Obj A
  progressing_and reason message k = modify (status_progressing rt api reason message) >> k

  -- The status after an error, and the error; a panic leaves at once.
  unfoldable pub failing : {A : Type 0} → String → String → rt.Error → Step rt Obj A
  failing reason message e =
      if rt.is_panic e then raise e else progressing_and reason message (raise e)

  -- From the finalizer to the end of `delete`.
  unfoldable pub drop_finalizer : Step rt Obj CtrlResult
  drop_finalizer = do
    modify (λ obj.
        api.set_finalizers (rt.remove_finalizer (api.get_finalizers obj) (api.finalizer obj)) obj)
    r.onboarding.update
    pure no_requeue

  -- `// remove cluster access` and what follows it
  unfoldable pub remove_access : ObjectKey → Step rt Obj CtrlResult
  remove_access req = do
    res ← calling (r.cluster_access.reconcile_delete req)
    if requeues res then pure res else drop_finalizer

  -- The domain's cleanup; `some res` leaves `delete` early.
  unfoldable pub delete_domain : Obj → Config → ClusterContext rt → Step rt Obj (Option CtrlResult)
  delete_domain old pc clusters = do
    done ← try (r.service_provider.delete pc clusters)
    report done old
    res ← lift done
    if requeues res then pure (some res) else pure none

  -- The block that runs while the access requests are not in deletion.
  unfoldable pub cleanup_after :
      Obj
      → Config
      → Result rt.Error (ClusterContext rt × CtrlResult)
      → Step rt Obj (Option CtrlResult)
  cleanup_after old pc (err e) = failing "ReconcileError" "cluster setup error" e
  cleanup_after old pc (ok (clusters, res)) =
      if requeues res
      then progressing_and "Reconciling" "clusters being setup" (pure (some res))
      else delete_domain old pc clusters

  unfoldable pub cleanup : ObjectKey → Obj → Config → Bool → Step rt Obj (Option CtrlResult)
  cleanup req old pc true = pure none
  cleanup req old pc false = do
    found ← try (calling (clusters r.cluster_access r.with_workload_cluster req))
    cleanup_after old pc found

  unfoldable pub leave_or : Option CtrlResult → Step rt Obj CtrlResult → Step rt Obj CtrlResult
  leave_or (some res) k = pure res
  leave_or none k = k

  unfoldable pub delete : Config → Step rt Obj CtrlResult
  delete pc = do
    old ← reading (λ obj. obj)
    let req : ObjectKey = api.object_key old
    going ← calling (are_access_requests_in_deletion r.cluster_access r.with_workload_cluster req)
    early ← cleanup req old pc going
    leave_or early (remove_access req)

  unfoldable pub set_up_and_create :
      Config → Result rt.Error (ClusterContext rt × CtrlResult) → Step rt Obj CtrlResult
  set_up_and_create pc (err e) = failing "ClusterAccessError" "Failed to setup cluster access" e
  set_up_and_create pc (ok (clusters, res)) =
      if requeues res
      then progressing_and "Reconciling" "Setting up cluster access" (pure res)
      else r.service_provider.create_or_update pc clusters

  unfoldable pub create_or_update : Config → Step rt Obj CtrlResult
  create_or_update pc = do
    r.onboarding.create_or_update (λ obj.
        api.set_finalizers (rt.add_finalizer (api.get_finalizers obj) (api.finalizer obj)) obj)
    req ← reading api.object_key
    found ← try (calling (clusters r.cluster_access r.with_workload_cluster req))
    set_up_and_create pc found

  -- `// core crud`
  unfoldable pub core : Obj → Config → Step rt Obj CtrlResult
  core old pc =
      if api.is_deleted old
      then delete pc
      else do res ← try (create_or_update pc); report res old; lift res

  -- `// return based on result/err`; an error has left already.
  unfoldable pub or_poll : Config → CtrlResult → CtrlResult
  or_poll pc res =
      if requeues res then res else record { requeue = false; requeue_after = pcs.poll_interval pc }

  unfoldable pub reconcile_object : Obj → Option Config → Step rt Obj CtrlResult
  reconcile_object old none = do
    modify (status_progressing rt api "ReconcileError" "No ProviderConfig found")
    update_status old
    raise (rt.new config_missing)
  reconcile_object old (some pc) = do res ← core old pc; pure (or_poll pc res)

  unfoldable pub found_or_gone : Result rt.Error Obj → Call rt CtrlResult
  found_or_gone (err e) = if rt.is_not_found e then pure no_requeue else raise e
  found_or_gone (ok obj) = running obj (reconcile_object obj r.provider_config)

  unfoldable pub reconcile : ObjectKey → Call rt CtrlResult
  reconcile req = do found ← try (r.onboarding.get req); found_or_gone found
