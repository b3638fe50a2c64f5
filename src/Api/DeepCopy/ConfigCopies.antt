-- ===== src/Api/DeepCopy/ConfigCopies.antt =====
-- The copies of a ProviderConfig, of its list and of their parts copy what a reader sees.
use service_provider_otel_co.Base.{refl, Option, List, map}
use service_provider_otel_co.Api.Config.{ProviderConfig, ProviderConfigSpec, ProviderConfigStatus}
use service_provider_otel_co.Api.DeepCopy.Heap.{
  Ref, ConfigSpecRef, ConfigStatusRef, ConfigRef, ListRef, zero_list,
}
use service_provider_otel_co.Kube.Objects.{GroupVersionKind}
use service_provider_otel_co.Api.DeepCopy.Metadata.{meta_part, list_meta_part}
use service_provider_otel_co.Api.DeepCopy.Shape.{Copyable}
use service_provider_otel_co.Api.DeepCopy.Parts.{
  plain_part, cell_part, ◌then◌, each_part, ByFields, record_part,
}
use service_provider_otel_co.Api.DeepCopy.Pointer.{pointer_part}
use service_provider_otel_co.Api.DeepCopy.Config.{
  spec_into, status_into, config_into, list_into, zero_config, in_config, in_configs, in_list,
}
use service_provider_otel_co.Api.DeepCopy.ConfigView.{
  spec_fields, spec_value, status_fields, status_value, config_fields, config_value, ListValue,
  list_fields,
}

pub spec_by_fields :
    ByFields spec_fields spec_value
      (cell_part then cell_part then cell_part then cell_part then cell_part then cell_part)
      spec_into
unfolding spec_into
spec_by_fields h s = refl

abbrev pub spec_part : Copyable ConfigSpecRef ProviderConfigSpec
spec_part =
    record_part spec_fields spec_value
      (cell_part then cell_part then cell_part then cell_part then cell_part then cell_part)
      spec_into spec_by_fields

pub status_by_fields : ByFields status_fields status_value cell_part status_into
unfolding status_into
status_by_fields h s = refl

abbrev pub status_part : Copyable ConfigStatusRef ProviderConfigStatus
status_part = record_part status_fields status_value cell_part status_into status_by_fields

pub config_by_fields :
    ByFields config_fields config_value
      (plain_part GroupVersionKind then meta_part then spec_part then status_part)
      config_into
unfolding config_into
config_by_fields h o = refl

abbrev pub config_part : Copyable ConfigRef ProviderConfig
config_part =
    record_part config_fields config_value
      (plain_part GroupVersionKind then meta_part then spec_part then status_part) config_into
      config_by_fields

abbrev pub pointer_copies : Copyable Ref (Option ProviderConfig)
pointer_copies = pointer_part in_config (λ _. zero_config) config_part

abbrev pub items_part : Copyable Ref (Option (List ProviderConfig))
items_part = pointer_part in_configs (map (λ _. zero_config)) (each_part config_part)

pub list_by_fields :
    ByFields list_fields
      (λ c. c)
      (plain_part GroupVersionKind then list_meta_part then items_part)
      list_into
unfolding list_into
list_by_fields h l = refl

abbrev pub list_part : Copyable ListRef ListValue
list_part =
    record_part list_fields (λ c. c)
      (plain_part GroupVersionKind then list_meta_part then items_part) list_into list_by_fields

abbrev pub list_pointer_copies : Copyable Ref (Option ListValue)
list_pointer_copies = pointer_part in_list (λ _. zero_list) list_part
