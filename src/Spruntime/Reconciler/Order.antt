-- ===== src/Spruntime/Reconciler/Order.antt =====
-- The order of the steps of `delete`: the object's finalizer goes last.
use mathlib.Core.Path.{subst}
use service_provider_otel_co.Base.{
  ℕ, String, sym, Exec, Option-cases, arith, bind-step, ap, ◌≡◌, refl, ◌⊎◌, inl, inr, Bool, true,
  false, Option, none, some, Result, ok, err, Bool-cases, try, lift, pure, continue, ◌>>=◌, ◌>>◌,
  if◌then◌else◌, Keeps, Keeps-pure, Keeps-if, Keeps-bind, Gives,
}
use service_provider_otel_co.Kube.Objects.{ObjectKey, CtrlResult, AccessRequest}
use service_provider_otel_co.Kube.Client.{Runtime, Call, Run, calling}
use service_provider_otel_co.Spruntime.Api.{ServiceProviderApi, ProviderConfigApi, ClusterContext}
use service_provider_otel_co.Spruntime.Access.{
  Reply, in_deletion, workload_in_deletion, no_requeue, requeues, clusters,
  are_access_requests_in_deletion,
}
use service_provider_otel_co.Spruntime.Access.Frame.{
  AccessKeeps, are_access_requests_in_deletion-Keeps, clusters-Keeps,
}
use service_provider_otel_co.Spruntime.Reconciler.{
  SpReconciler, update_status, report, failing, progressing_and, drop_finalizer, remove_access,
  delete_domain, cleanup_after, cleanup, leave_or, delete,
}

-- `P` holds of the clusters of a run.
abbrev pub In : (rt : Runtime) (T : Type 0) → (rt.World → Type 0) → Run rt T → Type 0
In rt T P s = P s.world

-- Where the access is revoked, the cleanup is done.
abbrev pub Sound : (rt : Runtime) → (rt.World → Type 0) → (rt.World → Type 0) → rt.World → Type 0
Sound rt revoked cleaned w = revoked w → cleaned w

-- A reply that there is no access request, or with one in deletion, is the case in the state after it. Another
-- error shows nothing.
pub record Shows (rt : Runtime) (revoked : rt.World → Type 0) (read : Reply rt × rt.World)
    : Type 0 where
  pub missing : (e : rt.Error) → read.0.1 ≡ some e → rt.is_not_found e ≡ true → revoked read.1
  pub marked :
      (ar : AccessRequest) (t : ℕ)
      → read.0.0 ≡ some ar
      → ar.deletion_timestamp ≡ some t
      → revoked read.1

-- A reply of `clusters` that asks for no requeue.
abbrev pub Fits :
    {rt : Runtime} → (ClusterContext rt → Type 0) → ClusterContext rt × CtrlResult → Type 0
Fits fits (ctx, res) = requeues res ≡ false → fits ctx

pub calling-Keeps :
    {rt : Runtime} {T A : Type 0} (P : rt.World → Type 0) (call : Call rt A)
    → Keeps P call
    → Keeps (In rt T P) (calling call)
calling-Keeps P call k = record { at = λ s h. k.at s.world h }

module _ {rt : Runtime} {api : ServiceProviderApi} {pcs : ProviderConfigApi}
    (r : SpReconciler rt api pcs) where
  -- For a deletion of `old` with the config `pc`: every call but the update that writes the object without
  -- its finalizer keeps `held`; `cleaned` holds when the domain's cleanup is done; and `revoked` says that an
  -- access request of the object is in deletion or missing, which a reply of that kind shows. Every call
  -- but the one that revokes the access keeps that the cleanup is done where an access is revoked.
  -- `fits` is what the domain may rely on of the clusters it gets.
  pub record Cleans (old : api.Obj) (pc : pcs.Config) (fits : ClusterContext rt → Type 0)
      (held revoked cleaned : rt.World → Type 0) : Type 0 where
    pub access : AccessKeeps r.cluster_access held
    pub access_sound : AccessKeeps r.cluster_access (Sound rt revoked cleaned)
    pub clusters_fit :
        (req : ObjectKey) (w : rt.World)
        → Gives (Fits fits) (clusters r.cluster_access r.with_workload_cluster req w).0
    pub patch_held : Keeps (In rt api.Obj held) (r.onboarding.patch_status old)
    pub patch_sound :
        Keeps (In rt api.Obj (Sound rt revoked cleaned)) (r.onboarding.patch_status old)
    pub delete_held :
        (ctx : ClusterContext rt)
        → fits ctx
        → Keeps (In rt api.Obj held) (r.service_provider.delete pc ctx)
    pub delete_sound :
        (ctx : ClusterContext rt)
        → fits ctx
        → Keeps (In rt api.Obj (Sound rt revoked cleaned)) (r.service_provider.delete pc ctx)
    pub patch_cleaned : Keeps (In rt api.Obj cleaned) (r.onboarding.patch_status old)
    pub update_cleaned : Keeps (In rt api.Obj cleaned) r.onboarding.update
    pub access_cleaned : (req : ObjectKey) → Keeps cleaned (r.cluster_access.reconcile_delete req)
    pub delete_cleans :
        (ctx : ClusterContext rt) (w : rt.World) (res : CtrlResult)
        → fits ctx
        → (r.service_provider.delete pc ctx (record { obj = old; world = w })).0 ≡ ok res
        → requeues res ≡ false
        → cleaned (r.service_provider.delete pc ctx (record { obj = old; world = w })).1.world
    pub mcp_shows :
        (w : rt.World)
        → Shows rt revoked (r.cluster_access.mcp_access_request (api.object_key old) w)
    pub workload_shows :
        r.with_workload_cluster ≡ true
        → (w : rt.World)
        → Shows rt revoked (r.cluster_access.workload_access_request (api.object_key old) w)

  pub update_status-Keeps :
      (P : rt.World → Type 0) (old : api.Obj)
      → Keeps (In rt api.Obj P) (r.onboarding.patch_status old)
      → Keeps (In rt api.Obj P) (update_status r old)
  unfolding update_status
  update_status-Keeps P old k = record {
    at = λ s h. go s h (api.status_equal (api.get_status old) (api.get_status s.obj));
  }
    where
      go :
          (s : Run rt api.Obj)
          → P s.world
          → (b : Bool)
          → P ((if b then pure tt else (do try (r.onboarding.patch_status old); pure tt)) s).1.world
      go s h true = h
      go s h false = k.at s h

  pub update_status-ok : (old : api.Obj) (s : Run rt api.Obj) → (update_status r old s).0 ≡ ok tt
  unfolding update_status
  update_status-ok old s = ground arith

  pub report-Keeps :
      {A : Type 0} (P : rt.World → Type 0) (res : Result rt.Error A) (old : api.Obj)
      → Keeps (In rt api.Obj P) (r.onboarding.patch_status old)
      → Keeps (In rt api.Obj P) (report r res old)
  unfolding report
  report-Keeps P (ok a) old k = update_status-Keeps P old k
  report-Keeps P (err e) old k =
      Keeps-if (rt.is_panic e) _ _ (Keeps-pure tt) (update_status-Keeps P old k)

  pub report-ok :
      {A : Type 0} (res : Result rt.Error A) (old : api.Obj) (s : Run rt api.Obj)
      → (report r res old s).0 ≡ ok tt
  unfolding report
  report-ok (ok a) old s = update_status-ok old s
  report-ok (err e) old s = elim (Bool-cases (rt.is_panic e)) [
    | inl is ↦ rw is refl
    | inr is ↦ rw is (update_status-ok old s)
  ]

  pub failing-is :
      {A : Type 0} (reason message : String) (e : rt.Error) (s : Run rt api.Obj)
      → let run = failing r {A = A} reason message e s in (run.0 ≡ err e) × (run.1.world ≡ s.world)
  unfolding failing progressing_and
  failing-is reason message e s = elim (Bool-cases (rt.is_panic e)) [
    | inl is ↦ rw is (refl, refl)
    | inr is ↦ rw is (refl, refl)
  ]

  pub failing-Keeps :
      {A : Type 0} (P : rt.World → Type 0) (reason message : String) (e : rt.Error)
      → Keeps (In rt api.Obj P) (failing r {A = A} reason message e)
  failing-Keeps P reason message e = record {
    at = λ s h. subst P (sym (failing-is reason message e s).1) h;
  }

  module _ {old : api.Obj} {pc : pcs.Config} {fits : ClusterContext rt → Type 0}
      {held revoked cleaned : rt.World → Type 0} (K : Cleans old pc fits held revoked cleaned) where
    abbrev IsSound : rt.World → Type 0
    IsSound = Sound rt revoked cleaned

    -- What holds as long as the cleanup is not done.
    abbrev Before : rt.World → Type 0
    Before w = held w × IsSound w

    both-Keeps :
        {S A : Type 0} {P Q : S → Type 0} (m : Exec rt.Error S A)
        → Keeps P m
        → Keeps Q m
        → Keeps (λ s. P s × Q s) m
    both-Keeps m p q = record { at = λ s h. (p.at s h.0, q.at s h.1) }

    -- What holds after the first half of `delete`.
    abbrev Half : Result rt.Error (Option CtrlResult) → rt.World → Type 0
    Half (ok none) w = cleaned w
    Half (ok (some res)) w = Before w
    Half (err e) w = Before w

    -- What the domain's `delete` leaves.
    abbrev Left : Result rt.Error CtrlResult → rt.World → Type 0
    Left done w = Before w × ((res : CtrlResult) → done ≡ ok res → requeues res ≡ false → cleaned w)

    after_delete-Half :
        (done : Result rt.Error CtrlResult) (t : Run rt api.Obj)
        → Left done t.world
        → let run = (do res ← lift done; if requeues res then pure (some res) else pure none) t in
          Half run.0 run.1.world
    after_delete-Half (err e) t (h, c) = h
    after_delete-Half (ok res) t (h, c) = elim (Bool-cases (requeues res)) [
      | inl e ↦ rw e h
      | inr e ↦ rw e (c res refl e)
    ]

    delete_domain-Half :
        (ctx : ClusterContext rt) (w : rt.World)
        → fits ctx
        → Before w
        → let run = delete_domain r old pc ctx (record { obj = old; world = w }) in
          Half run.0 run.1.world
    unfolding delete_domain
    delete_domain-Half ctx w fit h =
        let s : Run rt api.Obj = record { obj = old; world = w } in
        let (done, t) = r.service_provider.delete pc ctx s in
        rw
          (bind-step (report r done old)
            (λ _. lift done >>= λ res. if requeues res then pure (some res) else pure none) t
            (report-ok done old t))
          (after_delete-Half done _ (
            (report-Keeps Before done old
                  (both-Keeps (r.onboarding.patch_status old) K.patch_held K.patch_sound)).at
                t
                ((both-Keeps (r.service_provider.delete pc ctx) (K.delete_held ctx fit)
                    (K.delete_sound ctx fit)).at
                  s h),
            λ res e go_on.
                (report-Keeps cleaned done old K.patch_cleaned).at t
                  (K.delete_cleans ctx w res fit e go_on),
          ))

    cleanup_after-Half :
        (found : Result rt.Error (ClusterContext rt × CtrlResult)) (w : rt.World)
        → Gives (Fits fits) found
        → Before w
        → let run = cleanup_after r old pc found (record { obj = old; world = w }) in
          Half run.0 run.1.world
    unfolding cleanup_after progressing_and
    cleanup_after-Half (err e) w fit h =
        let s : Run rt api.Obj = record { obj = old; world = w } in
        rw ((failing-is {A = Option CtrlResult} "ReconcileError" "cluster setup error" e s).0) (
          (failing-Keeps {A = Option CtrlResult} Before "ReconcileError" "cluster setup error" e).at
            s h)
    cleanup_after-Half (ok (ctx, res)) w fit h = elim (Bool-cases (requeues res)) [
      | inl e ↦ rw e h
      | inr e ↦ rw e (delete_domain-Half ctx w (fit e) h)
    ]

    cleanup-Half :
        (req : ObjectKey) (going : Bool) (w : rt.World)
        → Before w
        → (going ≡ true → cleaned w)
        → let run = cleanup r req old pc going (record { obj = old; world = w }) in
          Half run.0 run.1.world
    unfolding cleanup
    cleanup-Half req true w h c = c refl
    cleanup-Half req false w h c = cleanup_after-Half _ _ (K.clusters_fit req w) (
        (both-Keeps (clusters r.cluster_access r.with_workload_cluster req)
            (clusters-Keeps K.access r.with_workload_cluster req)
            (clusters-Keeps K.access_sound r.with_workload_cluster req)).at
          w h)

    drop_finalizer-Keeps : Keeps (In rt api.Obj cleaned) (drop_finalizer r)
    unfolding drop_finalizer
    drop_finalizer-Keeps = record {
      at = λ s h.
          (Keeps-bind r.onboarding.update (λ _. pure no_requeue) K.update_cleaned
              (λ _. Keeps-pure no_requeue)).at
            _ h;
    }

    remove_access-Keeps : (req : ObjectKey) → Keeps (In rt api.Obj cleaned) (remove_access r req)
    unfolding remove_access
    remove_access-Keeps req =
        Keeps-bind _ _ (calling-Keeps cleaned _ (K.access_cleaned req))
          λ res. Keeps-if (requeues res) _ _ (Keeps-pure res) drop_finalizer-Keeps

    -- How a run may end.
    abbrev Ends : rt.World → Type 0
    Ends w = (held w ⊎ cleaned w) × IsSound w

    Before-Ends : (w : rt.World) → Before w → Ends w
    Before-Ends w h = (inl h.0, h.1)

    second-Order :
        (req : ObjectKey) (x : Result rt.Error (Option CtrlResult)) (t : Run rt api.Obj)
        → Half x t.world
        → Ends (continue x (λ early. leave_or r early (remove_access r req)) t).1.world
    unfolding leave_or
    second-Order req (err e) t h = Before-Ends t.world h
    second-Order req (ok (some res)) t h = Before-Ends t.world h
    second-Order req (ok none) t c =
        let done = (remove_access-Keeps req).at t c in (inr done, λ _. done)

    first-Order :
        (req : ObjectKey) (x : Result rt.Error Bool) (w : rt.World)
        → Before w
        → (x ≡ ok true → cleaned w)
        → Ends
            (continue x
              (λ going.
                cleanup r req old pc going >>= λ early. leave_or r early (remove_access r req))
              (record { obj = old; world = w })).1.world
    first-Order req (err e) w h c = Before-Ends w h
    first-Order req (ok going) w h c =
        second-Order req _ _ (cleanup-Half req going w h (λ e. c (ap ok e)))

    -- The two tests on a reply answer true for a request that is revoked.
    reply-revoked :
        (read : Reply rt × rt.World)
        → Shows rt revoked read
        → (in_deletion rt read.0 read.1).0 ≡ ok true
        → revoked (in_deletion rt read.0 read.1).1
    unfolding in_deletion
    reply-revoked ((none, none), w) S h = cc h
    reply-revoked ((some ar, none), w) S h = elim (Option-cases ar.deletion_timestamp) [
      | inl e ↦ absurd (ground (arith, e, h))
      | inr (t, e) ↦ rw e (S.marked ar t refl e)
    ]
    reply-revoked ((none, some e), w) S h = elim (Bool-cases (rt.is_not_found e)) [
      | inl b ↦ rw b (S.missing e refl b)
      | inr b ↦ absurd (ground (arith, b, h))
    ]
    reply-revoked ((some ar, some e), w) S h = elim (Bool-cases (rt.is_not_found e)) [
      | inl b ↦ rw b (S.missing e refl b)
      | inr b ↦ elim (Option-cases ar.deletion_timestamp) [
        | inl n ↦ absurd (ground (arith, b, n, h))
        | inr (t, m) ↦ rw (b, m) (S.marked ar t refl m)
      ]
    ]

    workload-revoked :
        (b : Bool) (w : rt.World)
        → (b ≡ true → revoked w)
        → let run =
            workload_in_deletion r.cluster_access r.with_workload_cluster
              (api.object_key old)
              b
              w in
          run.0 ≡ ok true → revoked run.1
    unfolding workload_in_deletion
    workload-revoked true w is h = is refl
    workload-revoked false w is h = elim (Bool-cases r.with_workload_cluster) [
      | inl b ↦ rw b (
          reply-revoked (r.cluster_access.workload_access_request (api.object_key old) w)
            (K.workload_shows b w) (rw b at h))
      | inr b ↦ absurd (ground (arith, b, h))
    ]

    checked-revoked :
        (x : Result rt.Error Bool) (w : rt.World)
        → (x ≡ ok true → revoked w)
        → let run =
            continue x
              (workload_in_deletion r.cluster_access r.with_workload_cluster (api.object_key old))
              w in
          run.0 ≡ ok true → revoked run.1
    checked-revoked (err e) w is h = cc h
    checked-revoked (ok b) w is h = workload-revoked b w (λ e. is (ap ok e)) h

    requests-revoked :
        (w : rt.World)
        → let run =
            are_access_requests_in_deletion r.cluster_access r.with_workload_cluster
              (api.object_key old)
              w in
          run.0 ≡ ok true → revoked run.1
    unfolding are_access_requests_in_deletion
    requests-revoked w h =
        checked-revoked _ _
          (reply-revoked (r.cluster_access.mcp_access_request (api.object_key old) w)
            (K.mcp_shows w))
          h

    -- Under the conditions of `Cleans`, by which only the update that writes the object without its
    -- finalizer may end `held`, and a reply that an access request is missing or in deletion is true: a run of
    -- `delete` that starts where `held` holds, and where the cleanup is done if an access request is missing or
    -- in deletion, ends where `held` still does or the cleanup is done, whatever fails on its way; and where
    -- again the cleanup is done if an access request is missing or in deletion.
    pub delete_order :
        (w : rt.World)
        → held w
        → (revoked w → cleaned w)
        → let w' = (delete r pc (record { obj = old; world = w })).1.world in
          (held w' ⊎ cleaned w') × (revoked w' → cleaned w')
    unfolding delete
    delete_order w h s =
        let req : ObjectKey = api.object_key old in
        let before =
          (both-Keeps (are_access_requests_in_deletion r.cluster_access r.with_workload_cluster req)
              (are_access_requests_in_deletion-Keeps K.access r.with_workload_cluster req)
              (are_access_requests_in_deletion-Keeps K.access_sound r.with_workload_cluster req)).at
            w (h, s) in
        first-Order req _ _ before (λ e. before.1 (requests-revoked w e))
