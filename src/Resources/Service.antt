-- ===== src/Resources/Service.antt =====
-- internal/resources/deployment.go: ReconcileService
pub mod Routes
use service_provider_otel_co.Base.{String, [], ◌∷◌}
use service_provider_otel_co.Kube.Objects.{tcp, from_int, unset, cluster_ip, ServiceSpec, Service}
use service_provider_otel_co.Kube.Client.{Runtime, Call, services, Client}
use service_provider_otel_co.Resources.Constants.{
  service_name, managed_by_label, managed_by_value, app_label, app_value,
}

abbrev pub desired_spec : ServiceSpec
desired_spec = record {
  kind = cluster_ip;
  selector = (app_label, app_value) ∷ [];
  ports =
      record { name = "otlp-grpc"; port = 4317; target_port = from_int 4317; protocol = tcp }
      ∷ record { name = "otlp-http"; port = 4318; target_port = from_int 4318; protocol = tcp }
      ∷ record { name = "metrics"; port = 8888; target_port = from_int 8888; protocol = tcp }
      ∷ [];
}

-- The function that sets the desired state.
unfoldable pub set_service : Service → Service
set_service svc = record svc {
  labels = (app_label, app_value) ∷ (managed_by_label, managed_by_value) ∷ [];
  spec = desired_spec;
}

abbrev pub new_service : String → Service
new_service ns = record {
  key = record { namespace = ns; name = service_name };
  labels = [];
  spec = record { kind = unset; selector = []; ports = [] };
}

unfoldable pub reconcile_service : {rt : Runtime} → Client rt → String → Call rt Unit
reconcile_service c ns = c.create_or_update services (new_service ns) set_service
