-- ===== src/Resources/Prerequisites/Returns.antt =====
-- When CheckPrerequisites returns without an error.
use service_provider_otel_co.Base.{String, ◌<>◌, ◌≡◌, arith, ok, Option-cases, inl, inr}
use service_provider_otel_co.Kube.Client.{Runtime, Kind, config_maps, secrets, Client}
use service_provider_otel_co.Kube.Laws.{View, IsLawful, Serves}
use service_provider_otel_co.Resources.Constants.{config_map_name, secret_name}
use service_provider_otel_co.Resources.Prerequisites.{verdict, optional, read, check_prerequisites}
use service_provider_otel_co.Resources.Prerequisites.Exact.{object_in, read_frame}

module _ {rt : Runtime} {c : Client rt} {view : View rt} (L : IsLawful c view) (S : Serves c view)
    (ns : String) where
  read-returns :
      (k : Kind) (name m : String) (w : rt.World)
      → (read c ns k name m w).0 ≡ ok (view w k (object_in ns name))
  unfolding read optional
  read-returns k name m w = elim (Option-cases (view w k (object_in ns name))) [
    | inl e ↦ ground (arith, e, S.get_absent k (object_in ns name) w e)
    | inr (o, e) ↦ ground (arith, e, S.get_present k (object_in ns name) w e)
  ]

  -- With a lawful client of a cluster that answers, the check returns no error and gives the verdict on the
  -- config map and the secret that are stored.
  pub check_prerequisites-returns :
      (w : rt.World)
      → (check_prerequisites c ns w).0
        ≡ ok (
            verdict c ns
              (view w config_maps (object_in ns config_map_name))
              (view w secrets (object_in ns secret_name)))
  unfolding check_prerequisites
  check_prerequisites-returns w =
      let cm_read =
        read c ns config_maps config_map_name ("checking ConfigMap " <> config_map_name) in
      ground (
        arith,
        read-returns config_maps config_map_name ("checking ConfigMap " <> config_map_name) w,
        read-returns secrets secret_name ("checking Secret " <> secret_name) (cm_read w).1,
        read_frame L ns config_maps config_map_name ("checking ConfigMap " <> config_map_name) w
            secrets (object_in ns secret_name),
      )
