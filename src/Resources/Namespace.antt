-- ===== src/Resources/Namespace.antt =====
-- internal/resources/namespace.go
pub mod Exists
use service_provider_otel_co.Base.{String, Result, ok, err, try, pure, raise, ◌>>=◌, if◌then◌else◌}
use service_provider_otel_co.Kube.Objects.{Namespace}
use service_provider_otel_co.Kube.Client.{Runtime, Call, namespaces, key_of, Client}

module _ {rt : Runtime} (c : Client rt) where
  create_if_missing : Namespace → Result rt.Error Namespace → Call rt Unit
  create_if_missing namespace (ok _) = pure tt
  create_if_missing namespace (err e) =
      if rt.is_not_found e then c.create namespaces namespace else raise e

  unfoldable pub reconcile_namespace : String → Call rt Unit
  unfolding create_if_missing
  reconcile_namespace ns = do
    let namespace : Namespace = record { name = ns }
    found ← try (c.get namespaces (key_of namespaces namespace))
    create_if_missing namespace found
