-- ===== src/Resources/Prerequisites/Exact.antt =====
-- CheckPrerequisites against what the cluster stores.
use service_provider_otel_co.Base.{String, ◌<>◌, ◌≡◌, Option, arith, Result, ok, err}
use service_provider_otel_co.Kube.Objects.{ObjectKey, ConfigMap, Secret}
use service_provider_otel_co.Kube.Client.{Runtime, Call, Kind, config_maps, secrets, Client}
use service_provider_otel_co.Kube.Laws.{View, IsLawful}
use service_provider_otel_co.Resources.Constants.{config_map_name, secret_name}
use service_provider_otel_co.Resources.Prerequisites.{
  PrerequisiteResult, verdict, optional, read, check_prerequisites,
}

abbrev pub object_in : String → String → ObjectKey
object_in ns name = record { namespace = ns; name = name }

-- A reply that is no error is the given value.
abbrev Answers : {E A : Type 0} → Result E A → A → Type 0
Answers (ok a) b = a ≡ b
Answers (err _) b = Unit

module _ {rt : Runtime} {c : Client rt} {view : View rt} (L : IsLawful c view) (ns : String) where
  pub read_frame :
      (k : Kind) (name m : String) (w : rt.World) (j : Kind) (b : ObjectKey)
      → view (read c ns k name m w).1 j b ≡ view w j b
  unfolding read optional
  read_frame k name m w j b = ground (arith, L.get_frame k (object_in ns name) w j b)

  read-eq_view :
      (k : Kind) (name m : String) (w : rt.World)
      → Answers (read c ns k name m w).0 (view w k (object_in ns name))
  unfolding read optional
  read-eq_view k name m w = ground (arith, L.get_reads k (object_in ns name) w)

  abbrev cm_read : Call rt (Option ConfigMap)
  cm_read = read c ns config_maps config_map_name ("checking ConfigMap " <> config_map_name)

  abbrev secret_read : Call rt (Option Secret)
  secret_read = read c ns secrets secret_name ("checking Secret " <> secret_name)

  -- With a lawful client, a check that returns no error gives the verdict on the config map and the
  -- secret that the cluster stores.
  pub check_prerequisites-eq_verdict :
      (w : rt.World) {p : PrerequisiteResult}
      → (check_prerequisites c ns w).0 ≡ ok p
      → p
        ≡ verdict c ns
            (view w config_maps (object_in ns config_map_name))
            (view w secrets (object_in ns secret_name))
  unfolding check_prerequisites
  check_prerequisites-eq_verdict w h =
      let w₁ : rt.World = (cm_read w).1 in
      ground (
        arith,
        read-eq_view config_maps config_map_name ("checking ConfigMap " <> config_map_name) w,
        read-eq_view secrets secret_name ("checking Secret " <> secret_name) w₁,
        read_frame config_maps config_map_name ("checking ConfigMap " <> config_map_name) w secrets
            (object_in ns secret_name),
      )

  -- The check writes nothing.
  pub check_prerequisites_frame :
      (w : rt.World) (j : Kind) (b : ObjectKey)
      → view (check_prerequisites c ns w).1 j b ≡ view w j b
  unfolding check_prerequisites
  check_prerequisites_frame w j b = ground (
    arith,
    read_frame config_maps config_map_name ("checking ConfigMap " <> config_map_name) w j b,
    read_frame secrets secret_name ("checking Secret " <> secret_name) (cm_read w).1 j b,
  )
