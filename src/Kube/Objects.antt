-- ===== src/Kube/Objects.antt =====
-- The Kubernetes objects, with the fields that the program reads or writes. A Go map is the list of
-- its entries in the order of iteration; a Go `string` whose bytes the program walks is `Bytes`.
use service_provider_otel_co.Base.{ℕ, String, Bool, true, Option, none, some, List, [], ℤ, pos}
use Prim.Native.Nat.{zero, suc}
use mathlib.Core.Bool.{false}

abbrev pub Bytes : Type 0
Bytes = List ℕ

-- `map[string]string` of labels and annotations.
abbrev pub Labels : Type 0
Labels = List (String × String)

-- client.ObjectKey, that is types.NamespacedName
pub record ObjectKey : Type 0 where
  pub namespace : String
  pub name : String

-- metav1.Condition; the transition time is set by the library that stores a condition
pub data ConditionStatus : Type 0 where
  condition_true condition_false : ConditionStatus

pub record Condition : Type 0 where
  pub kind : String
  pub status : ConditionStatus
  pub observed_generation : ℤ
  pub reason : String
  pub message : String

-- corev1.LocalObjectReference
pub record LocalObjectReference : Type 0 where
  pub name : String

pub record Namespace : Type 0 where
  pub name : String

pub record ConfigMap : Type 0 where
  pub key : ObjectKey
  pub data_map : List (Bytes × Bytes)

pub record Secret : Type 0 where
  pub key : ObjectKey
  pub kind : String
  pub labels : Labels
  pub data_map : List (Bytes × Bytes)

pub data Protocol : Type 0 where
  tcp udp : Protocol

pub record ContainerPort : Type 0 where
  pub name : String
  pub container_port : ℕ
  pub protocol : Protocol

-- intstr.IntOrString
pub data IntOrString : Type 0 where
  from_int : ℕ → IntOrString
  from_string : String → IntOrString

-- an HTTPGet probe
pub record Probe : Type 0 where
  pub path : String
  pub port : IntOrString

pub record VolumeMount : Type 0 where
  pub name : String
  pub mount_path : String

pub record KeyToPath : Type 0 where
  pub key : String
  pub path : String

-- a volume that is filled from a config map
pub record Volume : Type 0 where
  pub name : String
  pub config_map : LocalObjectReference
  pub items : List KeyToPath

-- corev1.ResourceRequirements: quantities by resource name
pub record ResourceRequirements : Type 0 where
  pub limits : Labels
  pub requests : Labels

pub record Container : Type 0 where
  pub name : String
  pub image : String
  pub command : List String
  pub env_from : List LocalObjectReference
  pub ports : List ContainerPort
  pub liveness_probe : Probe
  pub readiness_probe : Probe
  pub volume_mounts : List VolumeMount
  pub resources : ResourceRequirements

-- corev1.PodTemplateSpec; `none` is a nil map
pub record PodTemplate : Type 0 where
  pub labels : Labels
  pub annotations : Option Labels
  pub image_pull_secrets : List LocalObjectReference
  pub volumes : List Volume
  pub containers : List Container

-- `selector` holds the match labels, `none` a nil selector
pub record Deployment : Type 0 where
  pub key : ObjectKey
  pub labels : Labels
  pub selector : Option Labels
  pub replicas : Option ℕ
  pub template : PodTemplate

pub data ServiceType : Type 0 where
  unset cluster_ip node_port load_balancer : ServiceType

pub record ServicePort : Type 0 where
  pub name : String
  pub port : ℕ
  pub target_port : IntOrString
  pub protocol : Protocol

pub record ServiceSpec : Type 0 where
  pub kind : ServiceType
  pub selector : Labels
  pub ports : List ServicePort

pub record Service : Type 0 where
  pub key : ObjectKey
  pub labels : Labels
  pub spec : ServiceSpec

-- schema.GroupVersionKind and metav1.GroupVersionKind; metav1.TypeMeta, whose `apiVersion` is the group and
-- the version
pub record GroupVersionKind : Type 0 where
  pub group : String
  pub version : String
  pub kind : String

-- `metav1.TypeMeta{}`
abbrev pub no_kind : GroupVersionKind
no_kind = record { group = ""; version = ""; kind = "" }

-- metav1.ObjectMeta; a time is a number of seconds, the zero time is 0, and `none` is a nil pointer
pub record ObjectMeta : Type 0 where
  pub key : ObjectKey
  pub generation : ℤ
  pub finalizers : List String
  pub deletion_timestamp : Option ℕ

-- `metav1.ObjectMeta{}`
abbrev pub no_metadata : ObjectMeta
no_metadata = record {
  key = record { namespace = ""; name = "" };
  generation = pos 0;
  finalizers = [];
  deletion_timestamp = none;
}

-- `!obj.GetDeletionTimestamp().IsZero()`
abbrev pub is_set : Option ℕ → Bool
is_set none = false
is_set (some zero) = false
is_set (some (suc _)) = true

-- ctrl.Result; a duration is in nanoseconds
pub record CtrlResult : Type 0 where
  pub requeue : Bool
  pub requeue_after : ℤ

-- clustersv1alpha1.AccessRequest
pub record AccessRequest : Type 0 where
  pub namespace : String
  pub deletion_timestamp : Option ℕ
  pub secret_ref : Option LocalObjectReference
