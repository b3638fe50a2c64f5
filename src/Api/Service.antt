-- ===== src/Api/Service.antt =====
-- api/v1alpha1/otelcollectorservice_types.go, and the group of groupversion_info.go
pub mod Status
use service_provider_otel_co.Base.{String, ◌<>◌, Bool, Option, none, List, [], ℤ, pos}
use service_provider_otel_co.Kube.Objects.{
  Condition, ObjectMeta, ResourceRequirements, GroupVersionKind, is_set, no_kind, no_metadata,
}
use service_provider_otel_co.Spruntime.Api.{ServiceProviderApi}

-- `none` is a nil pointer
pub record OtelCollectorServiceSpec : Type 0 where
  pub collector_image : Option String
  pub collector_version : Option String
  pub resources : Option ResourceRequirements
  pub namespace : Option String

pub record OtelCollectorServiceStatus : Type 0 where
  pub conditions : List Condition
  pub observed_generation : ℤ
  pub phase : String

pub record OtelCollectorService : Type 0 where
  pub type_meta : GroupVersionKind
  pub metadata : ObjectMeta
  pub spec : OtelCollectorServiceSpec
  pub status : OtelCollectorServiceStatus

-- `&OtelCollectorService{}`: its kind is not set.
abbrev pub empty_service : OtelCollectorService
empty_service = record {
  type_meta = no_kind;
  metadata = no_metadata;
  spec = record {
    collector_image = none;
    collector_version = none;
    resources = none;
    namespace = none;
  };
  status = record { conditions = []; observed_generation = pos 0; phase = "" };
}

abbrev pub group : String
group = "otelcollector.services.openmcp.cloud"

abbrev pub version : String
version = "v1alpha1"

abbrev pub finalizer : OtelCollectorService → String
finalizer o = group <> "/finalizer"

abbrev pub get_status : OtelCollectorService → OtelCollectorServiceStatus
get_status o = o.status

abbrev pub get_conditions : OtelCollectorService → List Condition
get_conditions o = o.status.conditions

abbrev pub set_conditions : List Condition → OtelCollectorService → OtelCollectorService
set_conditions cs o = record o { status = record o.status { conditions = cs } }

abbrev pub set_phase : String → OtelCollectorService → OtelCollectorService
set_phase phase o = record o { status = record o.status { phase = phase } }

abbrev pub set_observed_generation : ℤ → OtelCollectorService → OtelCollectorService
set_observed_generation gen o = record o { status = record o.status { observed_generation = gen } }

-- The type as the generic reconciler sees it; `equal` is `equality.Semantic.DeepEqual`.
abbrev pub otel_api :
    (OtelCollectorServiceStatus → OtelCollectorServiceStatus → Bool) → ServiceProviderApi
otel_api equal = record {
  Obj = OtelCollectorService;
  Status = OtelCollectorServiceStatus;
  object_kind = λ o. o.type_meta;
  get_status = get_status;
  status_equal = equal;
  get_conditions = get_conditions;
  set_conditions = set_conditions;
  set_phase = set_phase;
  set_observed_generation = set_observed_generation;
  get_generation = λ o. o.metadata.generation;
  get_finalizers = λ o. o.metadata.finalizers;
  set_finalizers = λ fs o. record o { metadata = record o.metadata { finalizers = fs } };
  object_key = λ o. o.metadata.key;
  is_deleted = λ o. is_set o.metadata.deletion_timestamp;
  finalizer = finalizer;
}
