-- ===== src/Spruntime/Reconciler/Granted.antt =====
-- What `Reconcile` calls the domain with.
use service_provider_otel_co.Base.{
  ◌≡◌, refl, inl, inr, Bool, true, false, Option, none, some, Result, ok, err, Bool-cases, try,
  pure, raise, ◌>>=◌, Keeps, Keeps-pure, Keeps-raise, Keeps-if, Keeps-try, Keeps-lift, Keeps-bind,
  Gives,
}
use service_provider_otel_co.Kube.Objects.{ObjectKey, CtrlResult}
use service_provider_otel_co.Kube.Client.{Runtime, Step, calling}
use service_provider_otel_co.Spruntime.Api.{ServiceProviderApi, ProviderConfigApi, ClusterContext}
use service_provider_otel_co.Spruntime.Access.{
  no_requeue, requeues, clusters, are_access_requests_in_deletion,
}
use service_provider_otel_co.Spruntime.Access.Granted.{HasAccess, Grants, clusters-Grants}
use service_provider_otel_co.Spruntime.Access.Frame.{
  AccessKeeps, are_access_requests_in_deletion-Keeps, clusters-Keeps,
}
use service_provider_otel_co.Spruntime.Reconciler.{
  config_missing, SpReconciler, update_status, progressing_and, drop_finalizer, remove_access,
  delete_domain, cleanup_after, cleanup, leave_or, delete, set_up_and_create, create_or_update,
  core, or_poll, reconcile_object, found_or_gone, reconcile,
}
use service_provider_otel_co.Spruntime.Reconciler.Order.{
  In, calling-Keeps, update_status-Keeps, report-Keeps, failing-Keeps,
}

module _ {rt : Runtime} {api : ServiceProviderApi} {pcs : ProviderConfigApi}
    (r : SpReconciler rt api pcs) where
  -- What every call keeps, the domain's own methods only where they have access to the clusters.
  pub record GrantedKeeps (P : rt.World → Type 0) : Type 0 where
    pub access : AccessKeeps r.cluster_access P
    pub revoke : (req : ObjectKey) → Keeps P (r.cluster_access.reconcile_delete req)
    pub keeps_get : (req : ObjectKey) → Keeps P (r.onboarding.get req)
    pub keeps_set :
        (f : api.Obj → api.Obj) → Keeps (In rt api.Obj P) (r.onboarding.create_or_update f)
    pub keeps_update : Keeps (In rt api.Obj P) r.onboarding.update
    pub keeps_patch : (old : api.Obj) → Keeps (In rt api.Obj P) (r.onboarding.patch_status old)
    pub keeps_create_or_update :
        (pc : pcs.Config) (ctx : ClusterContext rt)
        → r.provider_config ≡ some pc
        → HasAccess r.with_workload_cluster ctx
        → Keeps (In rt api.Obj P) (r.service_provider.create_or_update pc ctx)
    pub keeps_delete :
        (pc : pcs.Config) (ctx : ClusterContext rt)
        → r.provider_config ≡ some pc
        → HasAccess r.with_workload_cluster ctx
        → Keeps (In rt api.Obj P) (r.service_provider.delete pc ctx)

  module _ {P : rt.World → Type 0} (K : GrantedKeeps P) where
    -- A step that goes on with what `clusters` found.
    with_clusters-Keeps :
        {A : Type 0} (req : ObjectKey)
        (f : Result rt.Error (ClusterContext rt × CtrlResult) → Step rt api.Obj A)
        → ((found : Result rt.Error (ClusterContext rt × CtrlResult))
            → Gives (Grants r.with_workload_cluster) found
            → Keeps (In rt api.Obj P) (f found))
        → Keeps
            (In rt api.Obj P)
            (try (calling (clusters r.cluster_access r.with_workload_cluster req)) >>= f)
    with_clusters-Keeps req f kf = record {
      at = λ s h.
          (kf _ (clusters-Grants r.cluster_access req r.with_workload_cluster s.world)).at _
            ((clusters-Keeps K.access r.with_workload_cluster req).at s.world h);
    }

    set_up_and_create-Keeps :
        (pc : pcs.Config) (found : Result rt.Error (ClusterContext rt × CtrlResult))
        → r.provider_config ≡ some pc
        → Gives (Grants r.with_workload_cluster) found
        → Keeps (In rt api.Obj P) (set_up_and_create r pc found)
    unfolding set_up_and_create progressing_and
    set_up_and_create-Keeps pc (err e) c g = failing-Keeps r P _ _ e
    set_up_and_create-Keeps pc (ok (ctx, res)) c g = elim (Bool-cases (requeues res)) [
      | inl e ↦ rw e (record { at = λ s h. h })
      | inr e ↦ rw e (K.keeps_create_or_update pc ctx c (g e))
    ]

    delete_domain-Keeps :
        (old : api.Obj) (pc : pcs.Config) (ctx : ClusterContext rt)
        → r.provider_config ≡ some pc
        → HasAccess r.with_workload_cluster ctx
        → Keeps (In rt api.Obj P) (delete_domain r old pc ctx)
    unfolding delete_domain
    delete_domain-Keeps old pc ctx c g =
        Keeps-bind _ _ (Keeps-try _ (K.keeps_delete pc ctx c g)) λ done.
          Keeps-bind _ _ (report-Keeps r P done old (K.keeps_patch old)) λ _.
            Keeps-bind _ _ (Keeps-lift done)
              λ res. Keeps-if (requeues res) _ _ (Keeps-pure (some res)) (Keeps-pure none)

    cleanup_after-Keeps :
        (old : api.Obj) (pc : pcs.Config) (found : Result rt.Error (ClusterContext rt × CtrlResult))
        → r.provider_config ≡ some pc
        → Gives (Grants r.with_workload_cluster) found
        → Keeps (In rt api.Obj P) (cleanup_after r old pc found)
    unfolding cleanup_after progressing_and
    cleanup_after-Keeps old pc (err e) c g = failing-Keeps r P _ _ e
    cleanup_after-Keeps old pc (ok (ctx, res)) c g = elim (Bool-cases (requeues res)) [
      | inl e ↦ rw e (record { at = λ s h. h })
      | inr e ↦ rw e (delete_domain-Keeps old pc ctx c (g e))
    ]

    cleanup-Keeps :
        (req : ObjectKey) (old : api.Obj) (pc : pcs.Config) (going : Bool)
        → r.provider_config ≡ some pc
        → Keeps (In rt api.Obj P) (cleanup r req old pc going)
    unfolding cleanup
    cleanup-Keeps req old pc true c = record { at = λ s h. h }
    cleanup-Keeps req old pc false c =
        with_clusters-Keeps req _ (λ found g. cleanup_after-Keeps old pc found c g)

    drop_finalizer-Keeps : Keeps (In rt api.Obj P) (drop_finalizer r)
    unfolding drop_finalizer
    drop_finalizer-Keeps = record {
      at = λ s h.
          (Keeps-bind r.onboarding.update (λ _. pure no_requeue) K.keeps_update
              (λ _. Keeps-pure no_requeue)).at
            _ h;
    }

    leave_or-Keeps :
        (req : ObjectKey) (early : Option CtrlResult)
        → Keeps (In rt api.Obj P) (leave_or r early (remove_access r req))
    unfolding leave_or remove_access
    leave_or-Keeps req (some res) = Keeps-pure res
    leave_or-Keeps req none =
        Keeps-bind _ _ (calling-Keeps P _ (K.revoke req))
          λ res. Keeps-if (requeues res) _ _ (Keeps-pure res) drop_finalizer-Keeps

    delete-Keeps :
        (pc : pcs.Config) → r.provider_config ≡ some pc → Keeps (In rt api.Obj P) (delete r pc)
    unfolding delete
    delete-Keeps pc c = record {
      at = λ s h.
          let req : ObjectKey = api.object_key s.obj in
          (Keeps-bind
              (calling
                (are_access_requests_in_deletion r.cluster_access r.with_workload_cluster req))
              (λ going.
                cleanup r req s.obj pc going >>= λ early. leave_or r early (remove_access r req))
              (calling-Keeps P _
                (are_access_requests_in_deletion-Keeps K.access r.with_workload_cluster req))
              (λ going.
                Keeps-bind _ _ (cleanup-Keeps req s.obj pc going c) (leave_or-Keeps req))).at
            s h;
    }

    create_or_update-Keeps :
        (pc : pcs.Config)
        → r.provider_config ≡ some pc
        → Keeps (In rt api.Obj P) (create_or_update r pc)
    unfolding create_or_update
    create_or_update-Keeps pc c = Keeps-bind _ _ (K.keeps_set _) λ _. record {
      at = λ s h.
          (with_clusters-Keeps (api.object_key s.obj) (set_up_and_create r pc)
              (λ found g. set_up_and_create-Keeps pc found c g)).at
            s h;
    }

    core-Keeps :
        (old : api.Obj) (pc : pcs.Config)
        → r.provider_config ≡ some pc
        → Keeps (In rt api.Obj P) (core r old pc)
    unfolding core
    core-Keeps old pc c = Keeps-if (api.is_deleted old) _ _ (delete-Keeps pc c) (
        Keeps-bind _ _ (Keeps-try _ (create_or_update-Keeps pc c))
          λ res. Keeps-bind _ _ (report-Keeps r P res old (K.keeps_patch old)) λ _. Keeps-lift res)

    reconcile_object-Keeps :
        (old : api.Obj) (pc : Option pcs.Config)
        → r.provider_config ≡ pc
        → Keeps (In rt api.Obj P) (reconcile_object r old pc)
    unfolding reconcile_object
    reconcile_object-Keeps old none c = record {
      at = λ s h.
          (Keeps-bind (update_status r old) (λ _. raise {A = CtrlResult} (rt.new config_missing))
              (update_status-Keeps r P old (K.keeps_patch old)) (λ _. Keeps-raise _)).at
            _ h;
    }
    reconcile_object-Keeps old (some pc) c =
        Keeps-bind _ _ (core-Keeps old pc c) (λ res. Keeps-pure (or_poll r pc res))

    -- The domain's methods are called only with the stored config and with access to the clusters that
    -- the provider needs: a predicate that they keep when they are called so, and that all other calls
    -- keep, is kept by `Reconcile`.
    pub reconcile_granted : (req : ObjectKey) (w : rt.World) → P w → P (reconcile r req w).1
    unfolding reconcile found_or_gone
    reconcile_granted req w h =
        go (r.onboarding.get req w).0 (r.onboarding.get req w).1 ((K.keeps_get req).at w h)
      where
        go : (found : Result rt.Error api.Obj) (t : rt.World) → P t → P (found_or_gone r found t).1
        go (ok obj) t h = (reconcile_object-Keeps obj r.provider_config refl).at _ h
        go (err e) t h =
            (Keeps-if {P = P} (rt.is_not_found e) (pure no_requeue) (raise e) (Keeps-pure _)
                (Keeps-raise e)).at
              t h
