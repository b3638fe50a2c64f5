-- ===== src/Resources/PullSecrets.antt =====
-- internal/resources/imagepullsecret.go
pub mod Synced
use service_provider_otel_co.Base.{
  String, ◌<>◌, List, [], ◌∷◌, Result, ok, err, try, pure, raise, ◌>>=◌, ◌>>◌, if◌then◌else◌,
}
use service_provider_otel_co.Kube.Objects.{Secret, ObjectKey, LocalObjectReference}
use service_provider_otel_co.Kube.Client.{Runtime, Call, secrets, Client, wrapping}
use service_provider_otel_co.Resources.Constants.{managed_by_label, managed_by_value}

-- corev1.SecretTypeDockerConfigJson
abbrev pub docker_config_json : String
docker_config_json = "kubernetes.io/dockerconfigjson"

-- The secret that is created where the target namespace has none of this name.
abbrev pub new_secret : ObjectKey → Secret → Secret
new_secret key src = record {
  key = key;
  kind = docker_config_json;
  labels = (managed_by_label, managed_by_value) ∷ [];
  data_map = src.data_map;
}

module _ {rt : Runtime} (mcp platform : Client rt) (ns source_ns : String) where
  -- The loop's body after the reads: the target secret was found, is missing, or could not be read.
  write_secret : String → Secret → Result rt.Error Secret → Call rt Unit
  write_secret name src (err e) =
      if rt.is_not_found e
      then wrapping rt ("creating image pull secret " <> (rt.quote name <> " in MCP"))
          (mcp.create secrets (new_secret (record { namespace = ns; name = name }) src))
      else raise e
  write_secret name src (ok dst) =
      wrapping rt ("updating image pull secret " <> (rt.quote name <> " in MCP"))
        (mcp.update secrets (record dst { data_map = src.data_map }))

  unfoldable pub sync_secret : LocalObjectReference → Call rt Unit
  unfolding write_secret
  sync_secret ref = do
    src ←
        wrapping rt ("getting image pull secret " <> (rt.quote ref.name <> " from platform"))
          (platform.get secrets (record { namespace = source_ns; name = ref.name }))
    found ← try (mcp.get secrets (record { namespace = ns; name = ref.name }))
    write_secret ref.name src found

  unfoldable pub reconcile_image_pull_secrets : List LocalObjectReference → Call rt Unit
  reconcile_image_pull_secrets [] = pure tt
  reconcile_image_pull_secrets (ref ∷ refs) = sync_secret ref >> reconcile_image_pull_secrets refs
