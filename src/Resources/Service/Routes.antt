-- ===== src/Resources/Service/Routes.antt =====
-- The service against the pods of the deployment.
use service_provider_otel_co.Base.{
  String, ◌≡◌, refl, false, some, List, [], ◌∷◌, All, ◌⊎◌, inl, inr, ok,
}
use service_provider_otel_co.Base.Dict.{lookup}
use service_provider_otel_co.Kube.Objects.{
  ContainerPort, from_int, Container, Deployment, ServicePort, Service, ObjectKey,
}
use service_provider_otel_co.Kube.Client.{Runtime, Kind, services, Client}
use service_provider_otel_co.Kube.Laws.{same, View, existing_or, IsLawful}
use service_provider_otel_co.Resources.Constants.{service_name}
use service_provider_otel_co.Resources.Deployment.{DeploymentOpts, set_deployment}
use service_provider_otel_co.Resources.Deployment.Desired.{Matches}
use service_provider_otel_co.Resources.Service.{set_service, new_service, reconcile_service}

-- A container port has the number, the name and the protocol of the service port's target.
abbrev pub Exposes : List ContainerPort → ServicePort → Type 0
Exposes [] p = ⊥
Exposes (q ∷ qs) p =
    ((p.target_port ≡ from_int q.container_port) × (p.name ≡ q.name) × (p.protocol ≡ q.protocol))
    ⊎ Exposes qs p

-- Some container of the pods exposes the target of a port.
abbrev pub Reaches : List Container → ServicePort → Type 0
Reaches [] p = ⊥
Reaches (c ∷ cs) p = Exposes c.ports p ⊎ Reaches cs p

-- Whatever was stored before, the service selects the pods of the deployment, and each of its ports
-- is exposed by a container of them.
pub set_service-routes :
    (svc : Service) (opts : DeploymentOpts) (d : Deployment)
    → Matches (set_service svc).spec.selector (set_deployment opts d).template.labels
      × All (Reaches (set_deployment opts d).template.containers) (set_service svc).spec.ports
unfolding set_service set_deployment lookup
set_service-routes svc opts d = (
  (refl, tt),
  (
    inl (inl (refl, refl, refl)),
    (inl (inr (inl (refl, refl, refl))), (inl (inr (inr (inl (refl, refl, refl)))), tt)),
  ),
)

abbrev pub service_key : String → ObjectKey
service_key ns = record { namespace = ns; name = service_name }

module _ {rt : Runtime} {c : Client rt} {view : View rt} (L : IsLawful c view) where
  pub reconcile_service-stores :
      (ns : String) (w : rt.World)
      → (reconcile_service c ns w).0 ≡ ok tt
      → view (reconcile_service c ns w).1 services (service_key ns)
        ≡ some
            (set_service (existing_or services (view w services (service_key ns)) (new_service ns)))
  unfolding reconcile_service
  reconcile_service-stores ns w h = L.create_or_update-ok services (new_service ns) set_service w h

  pub reconcile_service_frame :
      (ns : String) (w : rt.World) (j : Kind) (b : ObjectKey)
      → same services (service_key ns) j b ≡ false
      → view (reconcile_service c ns w).1 j b ≡ view w j b
  unfolding reconcile_service
  reconcile_service_frame ns w j b h =
      L.create_or_update_frame services (new_service ns) set_service w j b h
