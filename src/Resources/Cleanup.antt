-- ===== src/Resources/Cleanup.antt =====
-- internal/resources/cleanup.go
pub mod Removed
pub mod Returns
use service_provider_otel_co.Base.{
  String, Result, ok, err, try, pure, raise, ◌>>=◌, ◌>>◌, if◌then◌else◌,
}
use service_provider_otel_co.Kube.Objects.{ObjectKey}
use service_provider_otel_co.Kube.Client.{
  Runtime, Call, Kind, deployments, services, Object, Client,
}
use service_provider_otel_co.Resources.Constants.{deployment_name, service_name}

module _ {rt : Runtime} (c : Client rt) where
  -- client.IgnoreNotFound
  unfoldable pub ignore_not_found : Result rt.Error (Unit {0}) → Call rt Unit
  ignore_not_found (ok _) = pure tt
  ignore_not_found (err e) = if rt.is_not_found e then pure tt else raise e

  unfoldable pub delete_found : (k : Kind) → Result rt.Error (Object k) → Call rt Unit
  unfolding ignore_not_found
  delete_found k (ok o) = do done ← try (c.delete k o); ignore_not_found done
  delete_found k (err e) = if rt.is_not_found e then pure tt else raise e

  -- One of the two `Get` and `Delete` blocks.
  unfoldable pub delete_object : (k : Kind) → ObjectKey → Call rt Unit
  unfolding delete_found
  delete_object k key = do found ← try (c.get k key); delete_found k found

  unfoldable pub delete_managed_resources : String → Call rt Unit
  delete_managed_resources ns =
      delete_object deployments (record { namespace = ns; name = deployment_name })
      >> delete_object services (record { namespace = ns; name = service_name })
