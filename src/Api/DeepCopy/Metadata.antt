-- ===== src/Api/DeepCopy/Metadata.antt =====
-- metav1.ObjectMeta and metav1.ListMeta: their DeepCopyInto copies what their fields point to.
use service_provider_otel_co.Base.{String, refl, Option, ℤ}
use service_provider_otel_co.Kube.Objects.{ObjectKey, ObjectMeta}
use service_provider_otel_co.Api.DeepCopy.Heap.{
  Ref, Cell, MetaRef, ListMetaRef, Memory, give, ◌>>=◌,
}
use service_provider_otel_co.Api.DeepCopy.Shape.{Shape, Copyable}
use service_provider_otel_co.Api.DeepCopy.Parts.{
  plain, cell_shape, pair_shape, Fields, record_shape, copy_ref, plain_part, cell_part, ◌then◌,
  ByFields, record_part,
}
use service_provider_otel_co.Api.DeepCopy.Leaves.{as_names, as_time, as_count}

unfoldable pub meta_into : MetaRef → Memory MetaRef
unfolding copy_ref
meta_into m = do
  deletion_timestamp ← copy_ref m.deletion_timestamp
  finalizers ← copy_ref m.finalizers
  give record m { deletion_timestamp = deletion_timestamp; finalizers = finalizers }

unfoldable pub list_meta_into : ListMetaRef → Memory ListMetaRef
unfolding copy_ref
list_meta_into m = do
  remaining_item_count ← copy_ref m.remaining_item_count
  give record m { remaining_item_count = remaining_item_count }

abbrev pub meta_fields : Fields MetaRef (Ref × (Ref × (ObjectKey × ℤ)))
meta_fields = record {
  fields = λ m. (m.deletion_timestamp, (m.finalizers, (m.key, m.generation)));
  make = λ r. record {
    key = r.1.1.0;
    generation = r.1.1.1;
    finalizers = r.1.0;
    deletion_timestamp = r.0;
  };
  undo = λ r. refl;
}

abbrev pub meta_value : Option Cell × (Option Cell × (ObjectKey × ℤ)) → ObjectMeta
meta_value = (λ c. record {
  key = c.1.1.0;
  generation = c.1.1.1;
  finalizers = as_names c.1.0;
  deletion_timestamp = as_time c.0;
})

abbrev pub meta_shape : Shape MetaRef ObjectMeta
meta_shape =
    record_shape meta_fields meta_value
      (pair_shape cell_shape (pair_shape cell_shape (plain (ObjectKey × ℤ))))

pub meta_by_fields :
    ByFields meta_fields meta_value
      (cell_part then cell_part then plain_part (ObjectKey × ℤ))
      meta_into
unfolding meta_into
meta_by_fields h m = refl

abbrev pub meta_part : Copyable MetaRef ObjectMeta
meta_part =
    record_part meta_fields meta_value (cell_part then cell_part then plain_part (ObjectKey × ℤ))
      meta_into meta_by_fields

-- What a reader sees of ListMeta
abbrev pub ListMeta : Type 0
ListMeta = Option ℤ × (String × String)

abbrev pub list_meta_fields : Fields ListMetaRef (Ref × (String × String))
list_meta_fields = record {
  fields = λ m. (m.remaining_item_count, (m.resource_version, m.continue_token));
  make =
      λ r. record { resource_version = r.1.0; continue_token = r.1.1; remaining_item_count = r.0 };
  undo = λ r. refl;
}

abbrev pub list_meta_value : Option Cell × (String × String) → ListMeta
list_meta_value = λ c. (as_count c.0, c.1)

abbrev pub list_meta_shape : Shape ListMetaRef ListMeta
list_meta_shape =
    record_shape list_meta_fields list_meta_value (pair_shape cell_shape (plain (String × String)))

pub list_meta_by_fields :
    ByFields list_meta_fields list_meta_value
      (cell_part then plain_part (String × String))
      list_meta_into
unfolding list_meta_into
list_meta_by_fields h m = refl

abbrev pub list_meta_part : Copyable ListMetaRef ListMeta
list_meta_part =
    record_part list_meta_fields list_meta_value (cell_part then plain_part (String × String))
      list_meta_into list_meta_by_fields
