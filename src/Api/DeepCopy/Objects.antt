-- ===== src/Api/DeepCopy/Objects.antt =====
-- zz_generated.deepcopy.go: the four `DeepCopyObject`, whose result is an interface; `none` is the nil interface.
use service_provider_otel_co.Base.{ℕ, Option, none, some}
use service_provider_otel_co.Api.DeepCopy.Heap.{Ref, Memory, give, ◌>>=◌}
use service_provider_otel_co.Api.DeepCopy.Service
use service_provider_otel_co.Api.DeepCopy.Config

-- runtime.Object: a pointer, with its type
pub data Object : Type 0 where
  service service_list config config_list : ℕ → Object

abbrev boxed : (ℕ → Object) → Ref → Option Object
boxed box none = none
boxed box (some a) = some (box a)

unfoldable pub service_deep_copy_object : Ref → Memory (Option Object)
unfolding Service.service_deep_copy
service_deep_copy_object r = do c ← Service.service_deep_copy r; give (boxed service c)

unfoldable pub service_list_deep_copy_object : Ref → Memory (Option Object)
unfolding Service.list_deep_copy
service_list_deep_copy_object r = do c ← Service.list_deep_copy r; give (boxed service_list c)

unfoldable pub config_deep_copy_object : Ref → Memory (Option Object)
unfolding Config.config_deep_copy
config_deep_copy_object r = do c ← Config.config_deep_copy r; give (boxed config c)

unfoldable pub config_list_deep_copy_object : Ref → Memory (Option Object)
unfolding Config.list_deep_copy
config_list_deep_copy_object r = do c ← Config.list_deep_copy r; give (boxed config_list c)
