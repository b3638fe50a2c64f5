-- ===== src/Api/Config.antt =====
-- api/v1alpha1/providerconfig_types.go
use service_provider_otel_co.Base.{String, Option, none, some, List, [], ℤ, pos}
use service_provider_otel_co.Kube.Objects.{
  Condition, ObjectMeta, LocalObjectReference, ResourceRequirements, GroupVersionKind, is_set,
  no_kind, no_metadata,
}
use service_provider_otel_co.Spruntime.Api.{ProviderConfigApi}

-- `none` is a nil pointer; the interval is in nanoseconds
pub record ProviderConfigSpec : Type 0 where
  pub poll_interval : Option ℤ
  pub default_image : Option String
  pub default_version : Option String
  pub image_pull_secrets : List LocalObjectReference
  pub default_resources : Option ResourceRequirements
  pub default_namespace : Option String

pub record ProviderConfigStatus : Type 0 where
  pub conditions : List Condition

pub record ProviderConfig : Type 0 where
  pub type_meta : GroupVersionKind
  pub metadata : ObjectMeta
  pub spec : ProviderConfigSpec
  pub status : ProviderConfigStatus

-- `&ProviderConfig{}`
abbrev pub empty_config : ProviderConfig
empty_config = record {
  type_meta = no_kind;
  metadata = no_metadata;
  spec = record {
    poll_interval = none;
    default_image = none;
    default_version = none;
    image_pull_secrets = [];
    default_resources = none;
    default_namespace = none;
  };
  status = record { conditions = [] };
}

-- time.Minute
abbrev pub minute : ℤ
minute = pos 60000000000

abbrev or_minute : Option ℤ → ℤ
or_minute none = minute
or_minute (some d) = d

unfoldable pub poll_interval : ProviderConfig → ℤ
poll_interval o = or_minute o.spec.poll_interval

-- The type as the generic reconcilers see it.
abbrev pub otel_configs : ProviderConfigApi
otel_configs = record {
  Config = ProviderConfig;
  is_deleted = λ o. is_set o.metadata.deletion_timestamp;
  poll_interval = poll_interval;
}
