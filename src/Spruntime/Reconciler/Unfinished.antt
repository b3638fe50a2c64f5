-- ===== src/Spruntime/Reconciler/Unfinished.antt =====
-- What a run of `Reconcile` leaves of a deletion that does not get to the cleanup.
use service_provider_otel_co.Base.{
  String, ◌≡◌, refl, ◌⊎◌, inl, inr, Bool, Bool-cases, true, false, Option, some, Result, ok, err,
  Result-cases,
}
use service_provider_otel_co.Kube.Objects.{ObjectKey, CtrlResult}
use service_provider_otel_co.Kube.Client.{Runtime, Run, running}
use service_provider_otel_co.Spruntime.Api.{ServiceProviderApi, ProviderConfigApi, ClusterContext}
use service_provider_otel_co.Spruntime.Access.{requeues, clusters, are_access_requests_in_deletion}
use service_provider_otel_co.Spruntime.Status.{status_progressing}
use service_provider_otel_co.Spruntime.Reconciler.{
  SpReconciler, delete, cleanup, cleanup_after, progressing_and, failing, leave_or, core, or_poll,
  reconcile_object, found_or_gone, reconcile,
}

module _ {rt : Runtime} {api : ServiceProviderApi} {pcs : ProviderConfigApi}
    (r : SpReconciler rt api pcs) where
  -- The setup of the clusters fails, or asks to be called again, and a run that ends then returns `out`.
  abbrev pub Stops :
      Result rt.Error (ClusterContext rt × CtrlResult) → Result rt.Error CtrlResult → Type 0
  Stops (err e) out = out ≡ err e
  Stops (ok (_, res)) out = (requeues res ≡ true) × (out ≡ ok res)

  -- The run ended by a panic.
  abbrev pub Panics : Result rt.Error CtrlResult → Type 0
  Panics out = (e : rt.Error) × (out ≡ err e) × (rt.is_panic e ≡ true)

  -- The object is reported as progressing, or the run panicked.
  abbrev pub Reported : Result rt.Error CtrlResult → api.Obj → api.Obj → Type 0
  Reported out o o' =
      Panics out
      ⊎ ((reason : String) × (message : String) × (o' ≡ status_progressing rt api reason message o))

  -- The two calls that such a run makes for an object.
  abbrev pub checked : ObjectKey → rt.World → Result rt.Error Bool × rt.World
  checked = are_access_requests_in_deletion r.cluster_access r.with_workload_cluster

  abbrev pub access :
      ObjectKey → rt.World → Result rt.Error (ClusterContext rt × CtrlResult) × rt.World
  access key w = clusters r.cluster_access r.with_workload_cluster key (checked key w).1

  delete-Stops :
      (pc : pcs.Config) (s : Run rt api.Obj) (out : Result rt.Error CtrlResult)
      → (checked (api.object_key s.obj) s.world).0 ≡ ok false
      → Stops (access (api.object_key s.obj) s.world).0 out
      → (o : api.Obj) × Reported out s.obj o
        × (delete r pc s
            ≡ (out, record { obj = o; world = (access (api.object_key s.obj) s.world).1 }))
  unfolding delete cleanup cleanup_after progressing_and failing leave_or
  delete-Stops pc s out going stop = elim (Result-cases (access (api.object_key s.obj) s.world).0) [
    | inl (x, is) ↦
        let (more, o) = rw is at stop in
        (
          status_progressing rt api "Reconciling" "clusters being setup" s.obj,
          inr ("Reconciling", "clusters being setup", refl),
          rw (going, is, more, o) refl,
        )
    | inr (e, is) ↦
        let o = rw is at stop in
        elim (Bool-cases (rt.is_panic e)) [
          | inl p ↦ (s.obj, inl (e, o, p), rw (going, is, p, o) refl)
          | inr p ↦ (
            status_progressing rt api "ReconcileError" "cluster setup error" s.obj,
            inr ("ReconcileError", "cluster setup error", refl),
            rw (going, is, p, o) refl,
          )
        ]
  ]

  -- The poll interval is not used then.
  core-Stops :
      (c : Option pcs.Config) (pc : pcs.Config) (o : api.Obj) (w : rt.World)
      (out : Result rt.Error CtrlResult)
      → c ≡ some pc
      → api.is_deleted o ≡ true
      → (checked (api.object_key o) w).0 ≡ ok false
      → Stops (access (api.object_key o) w).0 out
      → running o (reconcile_object r o c) w ≡ (out, (access (api.object_key o) w).1)
  unfolding reconcile_object core or_poll
  core-Stops c pc o w out config deleted going stop =
      let (_, _, same) = delete-Stops pc (record { obj = o; world = w }) out going stop in
      elim (Result-cases (access (api.object_key o) w).0) [
        | inl (x, is) ↦ let (more, e) = rw is at stop in rw (config, deleted, same, e, more) refl
        | inr (e, is) ↦ let e' = rw is at stop in rw (config, deleted, same, e') refl
      ]

  -- For an object in deletion whose access requests are not, where the setup of the clusters fails or asks to
  -- be called again: the object in memory is reported as progressing, unless the setup panicked, and
  -- Reconcile returns that error or result without a further call, so that the report is not written to
  -- the cluster.
  pub reconcile_unreported :
      (req : ObjectKey) (w : rt.World) (out : Result rt.Error CtrlResult) {o : api.Obj}
      {pc : pcs.Config}
      → r.provider_config ≡ some pc
      → (r.onboarding.get req w).0 ≡ ok o
      → api.is_deleted o ≡ true
      → let t = (r.onboarding.get req w).1 in
        (checked (api.object_key o) t).0 ≡ ok false
        → Stops (access (api.object_key o) t).0 out
        → Reported out o (delete r pc (record { obj = o; world = t })).1.obj
          × (reconcile r req w ≡ (out, (access (api.object_key o) t).1))
  unfolding reconcile found_or_gone
  reconcile_unreported req w out {o} {pc} config found deleted going stop =
      let t = (r.onboarding.get req w).1 in
      let (o', reported, same) = delete-Stops pc (record { obj = o; world = t }) out going stop in
      (
        rw same reported,
        rw found (core-Stops r.provider_config pc o t out config deleted going stop),
      )
