-- ===== src/Resources/Cleanup/Removed.antt =====
-- What DeleteManagedResources removes and what it leaves alone.
use service_provider_otel_co.Base.{
  String, ◌≡◌, refl, ◌∙◌, false, none, arith, Result, ok, err, bind-ok,
}
use service_provider_otel_co.Kube.Objects.{ObjectKey}
use service_provider_otel_co.Kube.Client.{Runtime, Kind, deployments, services, Object, Client}
use service_provider_otel_co.Kube.Laws.{same, View, IsLawful, Reads, StoredAt}
use service_provider_otel_co.Resources.Constants.{deployment_name, service_name}
use service_provider_otel_co.Resources.Cleanup.{
  delete_found, delete_object, delete_managed_resources,
}

abbrev pub deployment_key : String → ObjectKey
deployment_key ns = record { namespace = ns; name = deployment_name }

abbrev pub service_key : String → ObjectKey
service_key ns = record { namespace = ns; name = service_name }

module _ {rt : Runtime} {c : Client rt} {view : View rt} (L : IsLawful c view) where
  delete_found-removes :
      (k : Kind) (a : ObjectKey) (r : Result rt.Error (Object k)) (w : rt.World)
      → Reads rt r (view w k a)
      → StoredAt k a (view w k a)
      → (delete_found c k r w).0 ≡ ok tt
      → view (delete_found c k r w).1 k a ≡ none
  unfolding delete_found
  delete_found-removes k a (ok o) w reads key h =
      rw (← (rw reads at key)) (ground (arith, L.delete_removes k o w))
  delete_found-removes k a (err e) w reads key h = ground (arith, reads)

  delete_found_frame :
      (k : Kind) (a : ObjectKey) (r : Result rt.Error (Object k)) (w : rt.World)
      → Reads rt r (view w k a)
      → StoredAt k a (view w k a)
      → (j : Kind) (b : ObjectKey) → same k a j b ≡ false
      → view (delete_found c k r w).1 j b ≡ view w j b
  unfolding delete_found
  delete_found_frame k a (ok o) w reads key j b h =
      ground (arith, L.delete_frame k o w j b (rw (rw reads at key) h))
  delete_found_frame k a (err e) w reads key j b h = ground arith

  Reads-after :
      (k : Kind) (a : ObjectKey) (w : rt.World)
      → Reads rt (c.get k a w).0 (view (c.get k a w).1 k a)
  Reads-after k a w = rw (L.get_frame k a w k a) (L.get_reads k a w)

  delete_object-removes :
      (k : Kind) (a : ObjectKey) (w : rt.World)
      → (delete_object c k a w).0 ≡ ok tt
      → view (delete_object c k a w).1 k a ≡ none
  unfolding delete_object
  delete_object-removes k a w h =
      let (r, w') = c.get k a w in
      delete_found-removes k a r w' (Reads-after k a w) (L.stored_key k a w') h

  delete_object_frame :
      (k : Kind) (a : ObjectKey) (w : rt.World) (j : Kind) (b : ObjectKey)
      → same k a j b ≡ false
      → view (delete_object c k a w).1 j b ≡ view w j b
  unfolding delete_object
  delete_object_frame k a w j b h =
      let (r, w') = c.get k a w in
      delete_found_frame k a r w' (Reads-after k a w) (L.stored_key k a w') j b h
      ∙ L.get_frame k a w j b

  -- After a cleanup that succeeds the cluster has neither the deployment nor the service.
  pub delete_managed_resources-removes :
      (ns : String) (w : rt.World)
      → (delete_managed_resources c ns w).0 ≡ ok tt
      → (view (delete_managed_resources c ns w).1 deployments (deployment_key ns) ≡ none)
        × (view (delete_managed_resources c ns w).1 services (service_key ns) ≡ none)
  unfolding delete_managed_resources
  delete_managed_resources-removes ns w h =
      let first = delete_object c deployments (deployment_key ns) in
      let second = delete_object c services (service_key ns) in
      let (_, done, step) = bind-ok first (λ _. second) w h in
      (
        rw step (
            delete_object_frame services (service_key ns) (first w).1 deployments
              (deployment_key ns) refl
            ∙ delete_object-removes deployments (deployment_key ns) w done),
        rw step (delete_object-removes services (service_key ns) (first w).1 (rw step at h)),
      )

  -- Every other object stays as it was, whether or not the cleanup succeeds.
  pub delete_managed_resources_frame :
      (ns : String) (w : rt.World) (j : Kind) (b : ObjectKey)
      → same deployments (deployment_key ns) j b ≡ false
      → same services (service_key ns) j b ≡ false
      → view (delete_managed_resources c ns w).1 j b ≡ view w j b
  unfolding delete_managed_resources
  delete_managed_resources_frame ns w j b hd hs =
      let first = delete_object c deployments (deployment_key ns) in
      ground (
        arith,
        delete_object_frame deployments (deployment_key ns) w j b hd,
        delete_object_frame services (service_key ns) (first w).1 j b hs,
      )
