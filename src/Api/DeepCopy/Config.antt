-- ===== src/Api/DeepCopy/Config.antt =====
-- zz_generated.deepcopy.go: the copies of ProviderConfig, its list and its parts, as those of OtelCollectorService.
use service_provider_otel_co.Base.{Option, List, some, none, refl, map}
use service_provider_otel_co.Kube.Objects.{no_kind}
use service_provider_otel_co.Api.DeepCopy.Heap.{
  Ref, ConfigSpecRef, ConfigStatusRef, ConfigRef, ListRef, config_spec, config_status, config,
  configs, config_list, Cell, Memory, give, ◌>>=◌, zero_list, zero_meta,
}
use service_provider_otel_co.Api.DeepCopy.Metadata.{meta_into, list_meta_into}
use service_provider_otel_co.Api.DeepCopy.Parts.{copy_ref, copy_all}
use service_provider_otel_co.Api.DeepCopy.Pointer.{Held, copy_pointer}

unfoldable pub spec_into : ConfigSpecRef → Memory ConfigSpecRef
unfolding copy_ref
spec_into s = do
  poll_interval ← copy_ref s.poll_interval
  default_image ← copy_ref s.default_image
  default_version ← copy_ref s.default_version
  image_pull_secrets ← copy_ref s.image_pull_secrets
  default_resources ← copy_ref s.default_resources
  default_namespace ← copy_ref s.default_namespace
  give record {
    poll_interval = poll_interval;
    default_image = default_image;
    default_version = default_version;
    image_pull_secrets = image_pull_secrets;
    default_resources = default_resources;
    default_namespace = default_namespace;
  }

unfoldable pub status_into : ConfigStatusRef → Memory ConfigStatusRef
unfolding copy_ref
status_into s = do copied ← copy_ref s.conditions; give record { conditions = copied }

unfoldable pub config_into : ConfigRef → Memory ConfigRef
unfolding meta_into spec_into status_into
config_into o = do
  metadata ← meta_into o.metadata
  spec ← spec_into o.spec
  status ← status_into o.status
  give record { type_meta = o.type_meta; metadata = metadata; spec = spec; status = status }

-- The zero values, which `new` and `make` give.
abbrev pub zero_spec : ConfigSpecRef
zero_spec = record {
  poll_interval = none;
  default_image = none;
  default_version = none;
  image_pull_secrets = none;
  default_resources = none;
  default_namespace = none;
}

abbrev pub zero_status : ConfigStatusRef
zero_status = record { conditions = none }

abbrev pub zero_config : ConfigRef
zero_config = record {
  type_meta = no_kind;
  metadata = zero_meta;
  spec = zero_spec;
  status = zero_status;
}

-- The cells of these types.
abbrev as_spec : Cell → Option ConfigSpecRef
as_spec (config_spec x) = some x
as_spec _ = none

abbrev as_status : Cell → Option ConfigStatusRef
as_status (config_status x) = some x
as_status _ = none

abbrev as_config : Cell → Option ConfigRef
as_config (config x) = some x
as_config _ = none

abbrev as_configs : Cell → Option (List ConfigRef)
as_configs (configs x) = some x
as_configs _ = none

abbrev as_list : Cell → Option ListRef
as_list (config_list x) = some x
as_list _ = none

abbrev pub in_spec : Held ConfigSpecRef
in_spec = record { wrap = config_spec; unwrap = as_spec; law = λ s. refl }

abbrev pub in_status : Held ConfigStatusRef
in_status = record { wrap = config_status; unwrap = as_status; law = λ s. refl }

abbrev pub in_config : Held ConfigRef
in_config = record { wrap = config; unwrap = as_config; law = λ o. refl }

abbrev pub in_configs : Held (List ConfigRef)
in_configs = record { wrap = configs; unwrap = as_configs; law = λ os. refl }

abbrev pub in_list : Held ListRef
in_list = record { wrap = config_list; unwrap = as_list; law = λ l. refl }

unfoldable pub spec_deep_copy : Ref → Memory Ref
unfolding spec_into copy_pointer
spec_deep_copy = copy_pointer in_spec (λ _. zero_spec) spec_into

unfoldable pub status_deep_copy : Ref → Memory Ref
unfolding status_into copy_pointer
status_deep_copy = copy_pointer in_status (λ _. zero_status) status_into

unfoldable pub config_deep_copy : Ref → Memory Ref
unfolding config_into copy_pointer
config_deep_copy = copy_pointer in_config (λ _. zero_config) config_into

unfoldable pub list_into : ListRef → Memory ListRef
unfolding list_meta_into config_into copy_pointer copy_all
list_into l = do
  metadata ← list_meta_into l.metadata
  items ← copy_pointer in_configs (map (λ _. zero_config)) (copy_all config_into) l.items
  give record l { metadata = metadata; items = items }

unfoldable pub list_deep_copy : Ref → Memory Ref
unfolding list_into copy_pointer
list_deep_copy = copy_pointer in_list (λ _. zero_list) list_into
