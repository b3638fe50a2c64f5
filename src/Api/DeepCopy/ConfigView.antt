-- ===== src/Api/DeepCopy/ConfigView.antt =====
-- What a reader sees behind a reference to a ProviderConfig or to its list, field by field.
use service_provider_otel_co.Base.{refl, Option, List}
use service_provider_otel_co.Api.Config.{ProviderConfig, ProviderConfigSpec, ProviderConfigStatus}
use service_provider_otel_co.Api.DeepCopy.Heap.{
  Ref, Cell, ConfigSpecRef, ConfigStatusRef, ConfigRef, ListRef, MetaRef, ListMetaRef,
}
use service_provider_otel_co.Kube.Objects.{GroupVersionKind, ObjectMeta}
use service_provider_otel_co.Api.DeepCopy.Metadata.{ListMeta, meta_shape, list_meta_shape}
use service_provider_otel_co.Api.DeepCopy.Shape.{Shape}
use service_provider_otel_co.Api.DeepCopy.Parts.{
  plain, cell_shape, pair_shape, all_shape, Fields, record_shape,
}
use service_provider_otel_co.Api.DeepCopy.Pointer.{pointer_shape}
use service_provider_otel_co.Api.DeepCopy.Leaves.{
  as_text, as_duration, as_quantities, as_references, as_conditions,
}
use service_provider_otel_co.Api.DeepCopy.Config.{in_config, in_configs, in_list}

abbrev pub spec_fields : Fields ConfigSpecRef (Ref × (Ref × (Ref × (Ref × (Ref × Ref)))))
spec_fields = record {
  fields = λ s. (
    s.poll_interval,
    (
      s.default_image,
      (s.default_version, (s.image_pull_secrets, (s.default_resources, s.default_namespace))),
    ),
  );
  make = λ r. record {
    poll_interval = r.0;
    default_image = r.1.0;
    default_version = r.1.1.0;
    image_pull_secrets = r.1.1.1.0;
    default_resources = r.1.1.1.1.0;
    default_namespace = r.1.1.1.1.1;
  };
  undo = λ r. refl;
}

abbrev pub spec_value :
    Option Cell × (Option Cell × (Option Cell × (Option Cell × (Option Cell × Option Cell))))
    → ProviderConfigSpec
spec_value = (λ c. record {
  poll_interval = as_duration c.0;
  default_image = as_text c.1.0;
  default_version = as_text c.1.1.0;
  image_pull_secrets = as_references c.1.1.1.0;
  default_resources = as_quantities c.1.1.1.1.0;
  default_namespace = as_text c.1.1.1.1.1;
})

abbrev pub spec_shape : Shape ConfigSpecRef ProviderConfigSpec
spec_shape = record_shape spec_fields spec_value (
    pair_shape cell_shape (
      pair_shape cell_shape
        (pair_shape cell_shape (pair_shape cell_shape (pair_shape cell_shape cell_shape)))))

abbrev pub status_fields : Fields ConfigStatusRef Ref
status_fields = record {
  fields = λ s. s.conditions;
  make = λ r. record { conditions = r };
  undo = λ r. refl;
}

abbrev pub status_value : Option Cell → ProviderConfigStatus
status_value = λ c. record { conditions = as_conditions c }

abbrev pub status_shape : Shape ConfigStatusRef ProviderConfigStatus
status_shape = record_shape status_fields status_value cell_shape

abbrev pub config_fields :
    Fields ConfigRef (GroupVersionKind × (MetaRef × (ConfigSpecRef × ConfigStatusRef)))
config_fields = record {
  fields = λ o. (o.type_meta, (o.metadata, (o.spec, o.status)));
  make = λ r. record { type_meta = r.0; metadata = r.1.0; spec = r.1.1.0; status = r.1.1.1 };
  undo = λ r. refl;
}

abbrev pub config_value :
    GroupVersionKind × (ObjectMeta × (ProviderConfigSpec × ProviderConfigStatus)) → ProviderConfig
config_value = (λ c. record { type_meta = c.0; metadata = c.1.0; spec = c.1.1.0; status = c.1.1.1 })

abbrev pub config_shape : Shape ConfigRef ProviderConfig
config_shape = record_shape config_fields config_value (
    pair_shape (plain GroupVersionKind)
      (pair_shape meta_shape (pair_shape spec_shape status_shape)))

-- A pointer to the object, and the slice of a list.
abbrev pub pointer : Shape Ref (Option ProviderConfig)
pointer = pointer_shape in_config config_shape

abbrev pub items : Shape Ref (Option (List ProviderConfig))
items = pointer_shape in_configs (all_shape config_shape)

-- The metadata and the items, none for nil
abbrev pub ListValue : Type 0
ListValue = GroupVersionKind × (ListMeta × Option (List ProviderConfig))

abbrev pub list_fields : Fields ListRef (GroupVersionKind × (ListMetaRef × Ref))
list_fields = record {
  fields = λ l. (l.type_meta, (l.metadata, l.items));
  make = λ r. record { type_meta = r.0; metadata = r.1.0; items = r.1.1 };
  undo = λ r. refl;
}

abbrev pub list_shape : Shape ListRef ListValue
list_shape =
    record_shape list_fields (λ c. c)
      (pair_shape (plain GroupVersionKind) (pair_shape list_meta_shape items))

abbrev pub list_pointer : Shape Ref (Option ListValue)
list_pointer = pointer_shape in_list list_shape
