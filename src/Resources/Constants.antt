-- ===== src/Resources/Constants.antt =====
-- internal/resources/constants.go
use service_provider_otel_co.Base.{String}

abbrev pub config_map_name : String
config_map_name = "otel-collector-conf"

abbrev pub config_map_key : String
config_map_key = "otel-collector-config"

abbrev pub secret_name : String
secret_name = "otel-collector-secret"

abbrev pub deployment_name : String
deployment_name = "otel-collector"

abbrev pub service_name : String
service_name = "otel-collector"

abbrev pub container_name : String
container_name = "otel-collector"

abbrev pub config_volume_name : String
config_volume_name = "otel-collector-config-vol"

abbrev pub managed_by_label : String
managed_by_label = "app.kubernetes.io/managed-by"

abbrev pub managed_by_value : String
managed_by_value = "service-provider-otel-collector"

abbrev pub app_label : String
app_label = "app"

abbrev pub app_value : String
app_value = "otel-collector"

abbrev pub config_hash_annotation : String
config_hash_annotation = "otelcollector.services.openmcp.cloud/config-hash"
