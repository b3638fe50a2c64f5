-- ===== src/Examples/HeapRuns.antt =====
-- Copies of an object, of a config and of a list on a heap of eleven cells.
use service_provider_otel_co.Base.{ℕ, zero, suc, ◌+◌, pos, some, List, [], ◌∷◌, arith}
use service_provider_otel_co.Api.DeepCopy.Heap.{
  Heap, Cell, text, service, services, conditions, service_list, config, configs, config_list,
  ServiceRef, ConfigRef, MetaRef, ListMetaRef, names, time, count, zero_list, zero_meta,
}
use service_provider_otel_co.Api.DeepCopy.Service.{
  service_deep_copy, list_deep_copy, zero_spec, zero_status,
}
use service_provider_otel_co.Api.DeepCopy.Config.{config_deep_copy}
use service_provider_otel_co.Api.DeepCopy.Config
use service_provider_otel_co.Kube.Objects.{no_kind}
use service_provider_otel_co.Api.DeepCopy.Parts.{reach_all}
use service_provider_otel_co.Api.DeepCopy.ServiceView
use service_provider_otel_co.Api.DeepCopy.ConfigView
use service_provider_otel_co.Api.DeepCopy.Independence.{
  InUse, Independent, service_deep_copy-Independent, config_deep_copy-Independent,
  service_list_deep_copy-Independent, config_list_deep_copy-Independent,
}

abbrev metadata : MetaRef
metadata = record zero_meta { finalizers = some 8; deletion_timestamp = some 9 }

abbrev list_metadata : ListMetaRef
list_metadata = record zero_list.metadata { remaining_item_count = some 10 }

abbrev object : ServiceRef
object = record {
  type_meta = no_kind;
  metadata = metadata;
  spec = record zero_spec { collector_image = some 1; namespace = some 1 };
  status = record zero_status { conditions = some 2 };
}

abbrev stored_config : ConfigRef
stored_config = record {
  type_meta = no_kind;
  metadata = metadata;
  spec = record Config.zero_spec { default_image = some 1 };
  status = Config.zero_status;
}

abbrev cells : List Cell
cells =
    service object
    ∷ text "otel"
    ∷ conditions []
    ∷ services (object ∷ [])
    ∷ service_list (record zero_list { metadata = list_metadata; items = some 3 })
    ∷ config stored_config
    ∷ configs (stored_config ∷ [])
    ∷ config_list (record zero_list { metadata = list_metadata; items = some 6 })
    ∷ names ("finalizer" ∷ [])
    ∷ time 7
    ∷ count (pos 3)
    ∷ []

abbrev at : List Cell → ℕ → Cell
at [] n = text ""
at (c ∷ cs) zero = c
at (c ∷ cs) (suc n) = at cs n

abbrev memory : Heap
memory = record { next = 11; cell = at cells }

-- Two assignments.
abbrev changes : ℕ → List (ℕ × Cell)
changes n = (n, text "changed") ∷ (n + 1, text "changed") ∷ []

service-InUse : InUse ServiceView.pointer memory (some 0)
service-InUse = (
  omega arith,
  (omega arith, (omega arith, (omega arith, (tt, (tt, (omega arith, (omega arith, tt))))))),
)

service_deep_copy-Independent_example :
    Independent ServiceView.pointer memory
      (some 0)
      (service_deep_copy (some 0) memory).0
      (service_deep_copy (some 0) memory).1
      (changes 0)
      (changes 12)
service_deep_copy-Independent_example =
    service_deep_copy-Independent memory (some 0) service-InUse (omega arith, (omega arith, tt))
      (omega arith, (omega arith, tt))

config-InUse : InUse ConfigView.pointer memory (some 5)
config-InUse = (
  omega arith,
  (omega arith, (omega arith, (tt, (omega arith, (tt, (tt, (tt, (tt, (tt, tt))))))))),
)

config_deep_copy-Independent_example :
    Independent ConfigView.pointer memory
      (some 5)
      (config_deep_copy (some 5) memory).0
      (config_deep_copy (some 5) memory).1
      (changes 0)
      (changes 12)
config_deep_copy-Independent_example =
    config_deep_copy-Independent memory (some 5) config-InUse (omega arith, (omega arith, tt))
      (omega arith, (omega arith, tt))

list-InUse : InUse ServiceView.list_pointer memory (some 4)
unfolding reach_all
list-InUse = (
  omega arith,
  (
    omega arith,
    (
      omega arith,
      (omega arith, (omega arith, (omega arith, (tt, (tt, (omega arith, (omega arith, tt))))))),
    ),
  ),
)

service_list_deep_copy-Independent_example :
    Independent ServiceView.list_pointer memory
      (some 4)
      (list_deep_copy (some 4) memory).0
      (list_deep_copy (some 4) memory).1
      (changes 0)
      (changes 12)
service_list_deep_copy-Independent_example =
    service_list_deep_copy-Independent memory (some 4) list-InUse (omega arith, (omega arith, tt))
      (omega arith, (omega arith, tt))

config_list-InUse : InUse ConfigView.list_pointer memory (some 7)
unfolding reach_all
config_list-InUse = (
  omega arith,
  (
    omega arith,
    (
      omega arith,
      (omega arith, (omega arith, (tt, (omega arith, (tt, (tt, (tt, (tt, (tt, tt))))))))),
    ),
  ),
)

config_list_deep_copy-Independent_example :
    Independent ConfigView.list_pointer memory
      (some 7)
      (Config.list_deep_copy (some 7) memory).0
      (Config.list_deep_copy (some 7) memory).1
      (changes 0)
      (changes 12)
config_list_deep_copy-Independent_example =
    config_list_deep_copy-Independent memory (some 7) config_list-InUse
      (omega arith, (omega arith, tt)) (omega arith, (omega arith, tt))
