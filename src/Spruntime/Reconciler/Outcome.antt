-- ===== src/Spruntime/Reconciler/Outcome.antt =====
-- What a run of `Reconcile` returns, and what it calls the domain with.
use service_provider_otel_co.Base.{
  ap, ◌≡◌, refl, ◌⊎◌, inl, inr, true, Option, none, some, is_positive, arith, Result, ok, err,
  Bool-cases, bind-ok, pure, raise,
}
use service_provider_otel_co.Kube.Objects.{ObjectKey, CtrlResult}
use service_provider_otel_co.Kube.Client.{Runtime, Run}
use service_provider_otel_co.Spruntime.Api.{ServiceProviderApi, ProviderConfigApi}
use service_provider_otel_co.Spruntime.Access.{no_requeue, requeues}
use service_provider_otel_co.Spruntime.Reconciler.{
  config_missing, SpReconciler, update_status, core, or_poll, reconcile_object, found_or_gone,
  reconcile,
}

module _ {rt : Runtime} {api : ServiceProviderApi} {pcs : ProviderConfigApi}
    (r : SpReconciler rt api pcs) where
  or_poll-requeues :
      (pc : pcs.Config) (res : CtrlResult)
      → is_positive (pcs.poll_interval pc) ≡ true
      → requeues (or_poll r pc res) ≡ true
  unfolding or_poll
  or_poll-requeues pc res h = elim (Bool-cases (requeues res)) [ inl e ↦ rw e e | inr e ↦ rw e h ]

  reconcile_object-requeues :
      (old : api.Obj) (pc : Option pcs.Config) (s : Run rt api.Obj) (res : CtrlResult)
      → ((c : pcs.Config) → pc ≡ some c → is_positive (pcs.poll_interval c) ≡ true)
      → (reconcile_object r old pc s).0 ≡ ok res
      → requeues res ≡ true
  unfolding reconcile_object
  reconcile_object-requeues old none s res h e =
      let (_, _, at) = bind-ok (update_status r old) (λ _. raise (rt.new config_missing)) _ e in
      cc (e, ap (λ (x : Result rt.Error CtrlResult × Run rt api.Obj). x.0) at)
  reconcile_object-requeues old (some pc) s res h e =
      let (res', _, at) = bind-ok (core r old pc) (λ res. pure (or_poll r pc res)) s e in
      cc (
        e,
        ap (λ (x : Result rt.Error CtrlResult × Run rt api.Obj). x.0) at,
        or_poll-requeues pc res' (h pc refl),
      )

  -- Where the poll interval is positive, a run that returns no error asks to be called again, unless
  -- the object was gone at its start.
  pub reconcile-requeues :
      (req : ObjectKey) (w : rt.World) (res : CtrlResult)
      → ((pc : pcs.Config)
          → r.provider_config ≡ some pc
          → is_positive (pcs.poll_interval pc) ≡ true)
      → (reconcile r req w).0 ≡ ok res
      → (requeues res ≡ true)
        ⊎ ((e : rt.Error) × ((r.onboarding.get req w).0 ≡ err e)
            × (rt.is_not_found e ≡ true)
            × (res ≡ no_requeue))
  unfolding reconcile found_or_gone
  reconcile-requeues req w res h = go (r.onboarding.get req w).0 (r.onboarding.get req w).1
    where
      go :
          (found : Result rt.Error api.Obj) (w' : rt.World)
          → (found_or_gone r found w').0 ≡ ok res
          → (requeues res ≡ true)
            ⊎ ((e : rt.Error) × (found ≡ err e) × (rt.is_not_found e ≡ true) × (res ≡ no_requeue))
      go (ok obj) w' e = inl (reconcile_object-requeues obj r.provider_config _ res h e)
      go (err x) w' e = elim (Bool-cases (rt.is_not_found x)) [
        | inl y ↦ inr (x, refl, y, ground (arith, e, y))
        | inr y ↦ absurd (ground (arith, e, y))
      ]
