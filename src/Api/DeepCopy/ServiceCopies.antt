-- ===== src/Api/DeepCopy/ServiceCopies.antt =====
-- The copies of an OtelCollectorService, of its list and of their parts copy what a reader sees.
use service_provider_otel_co.Base.{String, refl, Option, List, map, ℤ}
use service_provider_otel_co.Api.Service.{
  OtelCollectorService, OtelCollectorServiceSpec, OtelCollectorServiceStatus,
}
use service_provider_otel_co.Api.DeepCopy.Heap.{
  Ref, SpecRef, StatusRef, ServiceRef, ListRef, zero_list,
}
use service_provider_otel_co.Kube.Objects.{GroupVersionKind}
use service_provider_otel_co.Api.DeepCopy.Metadata.{meta_part, list_meta_part}
use service_provider_otel_co.Api.DeepCopy.Shape.{Copyable}
use service_provider_otel_co.Api.DeepCopy.Parts.{
  plain_part, cell_part, ◌then◌, each_part, ByFields, record_part,
}
use service_provider_otel_co.Api.DeepCopy.Pointer.{pointer_part}
use service_provider_otel_co.Api.DeepCopy.Service.{
  spec_into, status_into, service_into, list_into, zero_service, in_service, in_services, in_list,
}
use service_provider_otel_co.Api.DeepCopy.ServiceView.{
  spec_fields, spec_value, status_fields, status_value, service_fields, service_value, ListValue,
  list_fields,
}

pub spec_by_fields :
    ByFields spec_fields spec_value
      (cell_part then cell_part then cell_part then cell_part)
      spec_into
unfolding spec_into
spec_by_fields h s = refl

abbrev pub spec_part : Copyable SpecRef OtelCollectorServiceSpec
spec_part =
    record_part spec_fields spec_value (cell_part then cell_part then cell_part then cell_part)
      spec_into spec_by_fields

pub status_by_fields :
    ByFields status_fields status_value (cell_part then plain_part (ℤ × String)) status_into
unfolding status_into
status_by_fields h s = refl

abbrev pub status_part : Copyable StatusRef OtelCollectorServiceStatus
status_part =
    record_part status_fields status_value (cell_part then plain_part (ℤ × String)) status_into
      status_by_fields

pub service_by_fields :
    ByFields service_fields service_value
      (plain_part GroupVersionKind then meta_part then spec_part then status_part)
      service_into
unfolding service_into
service_by_fields h o = refl

abbrev pub service_part : Copyable ServiceRef OtelCollectorService
service_part =
    record_part service_fields service_value
      (plain_part GroupVersionKind then meta_part then spec_part then status_part) service_into
      service_by_fields

abbrev pub pointer_copies : Copyable Ref (Option OtelCollectorService)
pointer_copies = pointer_part in_service (λ _. zero_service) service_part

abbrev pub items_part : Copyable Ref (Option (List OtelCollectorService))
items_part = pointer_part in_services (map (λ _. zero_service)) (each_part service_part)

pub list_by_fields :
    ByFields list_fields
      (λ c. c)
      (plain_part GroupVersionKind then list_meta_part then items_part)
      list_into
unfolding list_into
list_by_fields h l = refl

abbrev pub list_part : Copyable ListRef ListValue
list_part =
    record_part list_fields (λ c. c)
      (plain_part GroupVersionKind then list_meta_part then items_part) list_into list_by_fields

abbrev pub list_pointer_copies : Copyable Ref (Option ListValue)
list_pointer_copies = pointer_part in_list (λ _. zero_list) list_part
