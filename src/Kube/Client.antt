-- ===== src/Kube/Client.antt =====
-- The interface of controller-runtime's client, and what the program relies on of it.
use service_provider_otel_co.Base.{String, Bool, List, Exec, Result, ok, err}
use service_provider_otel_co.Kube.Objects.{
  Bytes, Condition, ObjectKey, Namespace, ConfigMap, Secret, Deployment, Service,
}

-- Go's error values and the state of all clusters. `wrap` is `fmt.Errorf` with `%w`, `new` is
-- `errors.New`, `quote` prints a text by `%q`, and
-- `set_status_condition` is `meta.SetStatusCondition`, `add_finalizer` and `remove_finalizer` are
-- those of `controllerutil` on the list of finalizers. `Cluster` is a non-nil `*clusters.Cluster`, and
-- `nil_pointer` is the error that controller-runtime makes of a panic on a nil pointer; `is_panic`
-- tells the errors that stand for a panic, which runs nothing between it and `Reconcile`'s caller.
-- `sha256_sum` is the digest of all the bytes written to a `sha256.New()`. `wrap m e` has the
-- format "m: %w".
pub record Runtime : Type 1 where
  pub Error : Type 0
  pub World : Type 0
  pub is_not_found : Error → Bool
  pub new : String → Error
  pub wrap : String → Error → Error
  pub quote : String → String
  pub set_status_condition : List Condition → Condition → List Condition
  pub add_finalizer : List String → String → List String
  pub remove_finalizer : List String → String → List String
  pub Cluster : Type 0
  pub nil_pointer : Error
  pub is_panic : Error → Bool
  pub sha256_sum : Bytes → Bytes

-- A call on a cluster.
abbrev pub Call : Runtime → Type 0 → Type 0
Call rt A = Exec rt.Error rt.World A

pub data Kind : Type 0 where
  namespaces config_maps secrets deployments services : Kind

abbrev pub Object : Kind → Type 0
Object namespaces = Namespace
Object config_maps = ConfigMap
Object secrets = Secret
Object deployments = Deployment
Object services = Service

-- client.ObjectKeyFromObject
abbrev pub key_of : (k : Kind) → Object k → ObjectKey
key_of namespaces o = record { namespace = ""; name = o.name }
key_of config_maps o = o.key
key_of secrets o = o.key
key_of deployments o = o.key
key_of services o = o.key

-- `client.Client` of one cluster. `create_or_update o f` is `controllerutil.CreateOrUpdate` for the
-- object `o` with the function `f` that sets its desired state.
pub record Client (rt : Runtime) : Type 0 where
  pub get : (k : Kind) → ObjectKey → Call rt (Object k)
  pub create : (k : Kind) → Object k → Call rt Unit
  pub update : (k : Kind) → Object k → Call rt Unit
  pub delete : (k : Kind) → Object k → Call rt Unit
  pub create_or_update : (k : Kind) → Object k → (Object k → Object k) → Call rt Unit

-- `if err := …; err != nil { return fmt.Errorf("m: %w", err) }`
abbrev pub wrap_error : {A : Type 0} (rt : Runtime) → String → Result rt.Error A → Result rt.Error A
wrap_error rt m (ok a) = ok a
wrap_error rt m (err e) = err (rt.wrap m e)

abbrev pub wrapping : {A : Type 0} (rt : Runtime) → String → Call rt A → Call rt A
wrapping rt m call w = let (r, w') = call w in (wrap_error rt m r, w')

-- A method on an object that it changes through its pointer: the object, and the clusters.
pub record Run (rt : Runtime) (T : Type 0) : Type 0 where
  pub obj : T
  pub world : rt.World

abbrev pub Step : Runtime → Type 0 → Type 0 → Type 0
Step rt T A = Exec rt.Error (Run rt T) A

module _ {rt : Runtime} {T A : Type 0} where
  abbrev pub calling : Call rt A → Step rt T A
  calling call s = let (r, w) = call s.world in (r, record s { world = w })

  -- Runs a method on an object that is not used afterwards.
  abbrev pub running : T → Step rt T A → Call rt A
  running obj m w = let (r, s) = m (record { obj = obj; world = w }) in (r, s.world)

  abbrev pub reading : (T → A) → Step rt T A
  reading f s = (ok (f s.obj), s)

abbrev pub modify : {rt : Runtime} {T : Type 0} → (T → T) → Step rt T Unit
modify f s = (ok tt, record s { obj = f s.obj })
