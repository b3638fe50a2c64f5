-- ===== src/Resources/Cleanup/Returns.antt =====
-- When DeleteManagedResources returns without an error.
use mathlib.Core.Path.{subst}
use service_provider_otel_co.Base.{
  String, ◌≡◌, ◌∙◌, sym, Option, some, arith, ok, Option-cases, inl, inr, bind-step,
}
use service_provider_otel_co.Kube.Objects.{ObjectKey}
use service_provider_otel_co.Kube.Client.{
  Runtime, Kind, deployments, services, Object, Client, key_of,
}
use service_provider_otel_co.Kube.Laws.{View, IsLawful, Serves, StoredAt}
use service_provider_otel_co.Resources.Cleanup.{
  ignore_not_found, delete_found, delete_object, delete_managed_resources,
}
use service_provider_otel_co.Resources.Cleanup.Removed.{deployment_key, service_key}

module _ {rt : Runtime} {c : Client rt} {view : View rt} (L : IsLawful c view)
    (S : Serves c view) where
  delete_object-returns :
      (k : Kind) (a : ObjectKey) (w : rt.World) → (delete_object c k a w).0 ≡ ok tt
  unfolding delete_object delete_found ignore_not_found
  delete_object-returns k a w = elim (Option-cases (view w k a)) [
    | inl e ↦ ground (arith, S.get_absent k a w e)
    | inr (o, e) ↦
        let key : key_of k o ≡ a =
          subst (λ (x : Option (Object k)). StoredAt k a x) e (L.stored_key k a w) in
        ground (
          arith,
          S.get_present k a w e,
          S.delete_present k o (c.get k a w).1 {old = o} (
              subst (λ (b : ObjectKey). view (c.get k a w).1 k b ≡ some o) (sym key)
                (L.get_frame k a w k a ∙ e)),
        )
  ]

  -- With a lawful client of a cluster that answers, the cleanup returns no error.
  pub delete_managed_resources-returns :
      (ns : String) (w : rt.World) → (delete_managed_resources c ns w).0 ≡ ok tt
  unfolding delete_managed_resources
  delete_managed_resources-returns ns w =
      let first = delete_object c deployments (deployment_key ns) in
      let second = delete_object c services (service_key ns) in
      rw (bind-step first (λ _. second) w (delete_object-returns deployments (deployment_key ns) w))
        (delete_object-returns services (service_key ns) (first w).1)
