-- ===== src/Api/DeepCopy/ServiceView.antt =====
-- What a reader sees behind a reference to an OtelCollectorService or to its list, field by field.
use service_provider_otel_co.Base.{String, refl, Option, List, ℤ}
use service_provider_otel_co.Api.Service.{
  OtelCollectorService, OtelCollectorServiceSpec, OtelCollectorServiceStatus,
}
use service_provider_otel_co.Api.DeepCopy.Heap.{
  Ref, Cell, SpecRef, StatusRef, ServiceRef, ListRef, MetaRef, ListMetaRef,
}
use service_provider_otel_co.Kube.Objects.{GroupVersionKind, ObjectMeta}
use service_provider_otel_co.Api.DeepCopy.Metadata.{ListMeta, meta_shape, list_meta_shape}
use service_provider_otel_co.Api.DeepCopy.Shape.{Shape}
use service_provider_otel_co.Api.DeepCopy.Parts.{
  plain, cell_shape, pair_shape, all_shape, Fields, record_shape,
}
use service_provider_otel_co.Api.DeepCopy.Pointer.{pointer_shape}
use service_provider_otel_co.Api.DeepCopy.Leaves.{as_text, as_quantities, as_conditions}
use service_provider_otel_co.Api.DeepCopy.Service.{in_service, in_services, in_list}

abbrev pub spec_fields : Fields SpecRef (Ref × (Ref × (Ref × Ref)))
spec_fields = record {
  fields = λ s. (s.collector_image, (s.collector_version, (s.resources, s.namespace)));
  make = λ r. record {
    collector_image = r.0;
    collector_version = r.1.0;
    resources = r.1.1.0;
    namespace = r.1.1.1;
  };
  undo = λ r. refl;
}

abbrev pub spec_value :
    Option Cell × (Option Cell × (Option Cell × Option Cell)) → OtelCollectorServiceSpec
spec_value = (λ c. record {
  collector_image = as_text c.0;
  collector_version = as_text c.1.0;
  resources = as_quantities c.1.1.0;
  namespace = as_text c.1.1.1;
})

abbrev pub spec_shape : Shape SpecRef OtelCollectorServiceSpec
spec_shape =
    record_shape spec_fields spec_value
      (pair_shape cell_shape (pair_shape cell_shape (pair_shape cell_shape cell_shape)))

abbrev pub status_fields : Fields StatusRef (Ref × (ℤ × String))
status_fields = record {
  fields = λ s. (s.conditions, (s.observed_generation, s.phase));
  make = λ r. record { conditions = r.0; observed_generation = r.1.0; phase = r.1.1 };
  undo = λ r. refl;
}

abbrev pub status_value : Option Cell × (ℤ × String) → OtelCollectorServiceStatus
status_value =
    (λ c. record { conditions = as_conditions c.0; observed_generation = c.1.0; phase = c.1.1 })

abbrev pub status_shape : Shape StatusRef OtelCollectorServiceStatus
status_shape = record_shape status_fields status_value (pair_shape cell_shape (plain (ℤ × String)))

abbrev pub service_fields : Fields ServiceRef (GroupVersionKind × (MetaRef × (SpecRef × StatusRef)))
service_fields = record {
  fields = λ o. (o.type_meta, (o.metadata, (o.spec, o.status)));
  make = λ r. record { type_meta = r.0; metadata = r.1.0; spec = r.1.1.0; status = r.1.1.1 };
  undo = λ r. refl;
}

abbrev pub service_value :
    GroupVersionKind × (ObjectMeta × (OtelCollectorServiceSpec × OtelCollectorServiceStatus))
    → OtelCollectorService
service_value =
    (λ c. record { type_meta = c.0; metadata = c.1.0; spec = c.1.1.0; status = c.1.1.1 })

abbrev pub service_shape : Shape ServiceRef OtelCollectorService
service_shape = record_shape service_fields service_value (
    pair_shape (plain GroupVersionKind)
      (pair_shape meta_shape (pair_shape spec_shape status_shape)))

-- A pointer to the object, and the slice of a list.
abbrev pub pointer : Shape Ref (Option OtelCollectorService)
pointer = pointer_shape in_service service_shape

abbrev pub items : Shape Ref (Option (List OtelCollectorService))
items = pointer_shape in_services (all_shape service_shape)

-- The metadata and the items, none for nil
abbrev pub ListValue : Type 0
ListValue = GroupVersionKind × (ListMeta × Option (List OtelCollectorService))

abbrev pub list_fields : Fields ListRef (GroupVersionKind × (ListMetaRef × Ref))
list_fields = record {
  fields = λ l. (l.type_meta, (l.metadata, l.items));
  make = λ r. record { type_meta = r.0; metadata = r.1.0; items = r.1.1 };
  undo = λ r. refl;
}

abbrev pub list_shape : Shape ListRef ListValue
list_shape =
    record_shape list_fields (λ c. c)
      (pair_shape (plain GroupVersionKind) (pair_shape list_meta_shape items))

abbrev pub list_pointer : Shape Ref (Option ListValue)
list_pointer = pointer_shape in_list list_shape
