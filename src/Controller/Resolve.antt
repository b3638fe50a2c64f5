-- ===== src/Controller/Resolve.antt =====
-- internal/controller/otelcollectorservice_controller.go: resolveNamespace, resolveImage,
-- resolveVersion and resolveResources
use service_provider_otel_co.Base.{String, Option, none, some}
use service_provider_otel_co.Kube.Objects.{ResourceRequirements}
use service_provider_otel_co.Api.Service.{OtelCollectorService}
use service_provider_otel_co.Api.Config.{ProviderConfig}

abbrev default_namespace : String
default_namespace = "observability"

abbrev default_image : String
default_image = "otel/opentelemetry-collector-contrib"

abbrev default_version : String
default_version = "0.146.1"

-- The override of the object, else the default of the config, else `last`.
first_set : {A : Type 0} → Option A → Option A → A → A
first_set (some a) pc last = a
first_set none (some a) last = a
first_set none none last = last

unfoldable pub resolve_namespace : OtelCollectorService → ProviderConfig → String
unfolding first_set
resolve_namespace obj pc = first_set obj.spec.namespace pc.spec.default_namespace default_namespace

unfoldable pub resolve_image : OtelCollectorService → ProviderConfig → String
unfolding first_set
resolve_image obj pc = first_set obj.spec.collector_image pc.spec.default_image default_image

unfoldable pub resolve_version : OtelCollectorService → ProviderConfig → String
unfolding first_set
resolve_version obj pc =
    first_set obj.spec.collector_version pc.spec.default_version default_version

or_else : Option ResourceRequirements → Option ResourceRequirements → Option ResourceRequirements
or_else (some r) pc = some r
or_else none pc = pc

unfoldable pub resolve_resources :
    OtelCollectorService → ProviderConfig → Option ResourceRequirements
unfolding or_else
resolve_resources obj pc = or_else obj.spec.resources pc.spec.default_resources
