-- ===== src/Api/DeepCopy/Service.antt =====
-- zz_generated.deepcopy.go: the copies of OtelCollectorService, its list and its parts. What `DeepCopyInto` writes
-- to `*out` is the result here, and `DeepCopy` gives a reference, nil for nil.
use service_provider_otel_co.Base.{Option, List, some, none, pos, refl, map}
use service_provider_otel_co.Kube.Objects.{no_kind}
use service_provider_otel_co.Api.DeepCopy.Heap.{
  Ref, SpecRef, StatusRef, ServiceRef, ListRef, service_spec, service_status, service, services,
  service_list, Cell, Memory, give, ◌>>=◌, zero_list, zero_meta,
}
use service_provider_otel_co.Api.DeepCopy.Metadata.{meta_into, list_meta_into}
use service_provider_otel_co.Api.DeepCopy.Parts.{copy_ref, copy_all}
use service_provider_otel_co.Api.DeepCopy.Pointer.{Held, copy_pointer}

unfoldable pub spec_into : SpecRef → Memory SpecRef
unfolding copy_ref
spec_into s = do
  collector_image ← copy_ref s.collector_image
  collector_version ← copy_ref s.collector_version
  resources ← copy_ref s.resources
  namespace ← copy_ref s.namespace
  give record {
    collector_image = collector_image;
    collector_version = collector_version;
    resources = resources;
    namespace = namespace;
  }

unfoldable pub status_into : StatusRef → Memory StatusRef
unfolding copy_ref
status_into s = do copied ← copy_ref s.conditions; give record s { conditions = copied }

unfoldable pub service_into : ServiceRef → Memory ServiceRef
unfolding meta_into spec_into status_into
service_into o = do
  metadata ← meta_into o.metadata
  spec ← spec_into o.spec
  status ← status_into o.status
  give record { type_meta = o.type_meta; metadata = metadata; spec = spec; status = status }

-- The zero values, which `new` and `make` give.
abbrev pub zero_spec : SpecRef
zero_spec = record {
  collector_image = none;
  collector_version = none;
  resources = none;
  namespace = none;
}

abbrev pub zero_status : StatusRef
zero_status = record { conditions = none; observed_generation = pos 0; phase = "" }

abbrev pub zero_service : ServiceRef
zero_service = record {
  type_meta = no_kind;
  metadata = zero_meta;
  spec = zero_spec;
  status = zero_status;
}

-- The cells of these types.
abbrev as_spec : Cell → Option SpecRef
as_spec (service_spec x) = some x
as_spec _ = none

abbrev as_status : Cell → Option StatusRef
as_status (service_status x) = some x
as_status _ = none

abbrev as_service : Cell → Option ServiceRef
as_service (service x) = some x
as_service _ = none

abbrev as_services : Cell → Option (List ServiceRef)
as_services (services x) = some x
as_services _ = none

abbrev as_list : Cell → Option ListRef
as_list (service_list x) = some x
as_list _ = none

abbrev pub in_spec : Held SpecRef
in_spec = record { wrap = service_spec; unwrap = as_spec; law = λ s. refl }

abbrev pub in_status : Held StatusRef
in_status = record { wrap = service_status; unwrap = as_status; law = λ s. refl }

abbrev pub in_service : Held ServiceRef
in_service = record { wrap = service; unwrap = as_service; law = λ o. refl }

abbrev pub in_services : Held (List ServiceRef)
in_services = record { wrap = services; unwrap = as_services; law = λ os. refl }

abbrev pub in_list : Held ListRef
in_list = record { wrap = service_list; unwrap = as_list; law = λ l. refl }

unfoldable pub spec_deep_copy : Ref → Memory Ref
unfolding spec_into copy_pointer
spec_deep_copy = copy_pointer in_spec (λ _. zero_spec) spec_into

unfoldable pub status_deep_copy : Ref → Memory Ref
unfolding status_into copy_pointer
status_deep_copy = copy_pointer in_status (λ _. zero_status) status_into

unfoldable pub service_deep_copy : Ref → Memory Ref
unfolding service_into copy_pointer
service_deep_copy = copy_pointer in_service (λ _. zero_service) service_into

unfoldable pub list_into : ListRef → Memory ListRef
unfolding list_meta_into service_into copy_pointer copy_all
list_into l = do
  metadata ← list_meta_into l.metadata
  items ← copy_pointer in_services (map (λ _. zero_service)) (copy_all service_into) l.items
  give record l { metadata = metadata; items = items }

unfoldable pub list_deep_copy : Ref → Memory Ref
unfolding list_into copy_pointer
list_deep_copy = copy_pointer in_list (λ _. zero_list) list_into
