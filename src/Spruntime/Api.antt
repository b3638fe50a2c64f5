-- ===== src/Spruntime/Api.antt =====
-- The interfaces of pkg/spruntime/spreconciler.go.
use service_provider_otel_co.Base.{String, Bool, Option, List, ℤ}
use service_provider_otel_co.Kube.Objects.{
  Condition, ObjectKey, CtrlResult, AccessRequest, GroupVersionKind,
}
use service_provider_otel_co.Kube.Client.{Runtime, Call, Step}

-- ServiceProviderAPI: `client.Object`, ServiceProviderAPIStatus and `Finalizer`. The pointer that
-- `GetConditions` returns is `get_conditions` to read and `set_conditions` to write.
-- `object_kind` is `GetObjectKind().GroupVersionKind()`, and `status_equal` is `equality.Semantic.DeepEqual` on what `GetStatus` returns.
pub record ServiceProviderApi : Type 1 where
  pub Obj : Type 0
  pub Status : Type 0
  pub object_kind : Obj → GroupVersionKind
  pub get_status : Obj → Status
  pub status_equal : Status → Status → Bool
  pub get_conditions : Obj → List Condition
  pub set_conditions : List Condition → Obj → Obj
  pub set_phase : String → Obj → Obj
  pub set_observed_generation : ℤ → Obj → Obj
  pub get_generation : Obj → ℤ
  pub get_finalizers : Obj → List String
  pub set_finalizers : List String → Obj → Obj
  pub object_key : Obj → ObjectKey
  pub is_deleted : Obj → Bool
  pub finalizer : Obj → String

-- ProviderConfig
pub record ProviderConfigApi : Type 1 where
  pub Config : Type 0
  pub is_deleted : Config → Bool
  pub poll_interval : Config → ℤ

-- ClusterContext; `none` is a nil pointer
pub record ClusterContext (rt : Runtime) : Type 0 where
  pub mcp_cluster : Option rt.Cluster
  pub mcp_access_secret_key : ObjectKey
  pub workload_cluster : Option rt.Cluster
  pub workload_access_secret_key : ObjectKey

-- ClusterAccessProvider. The two functions on access requests return a pointer and an error, and
-- their caller reads the pointer also where there is an error.
pub record ClusterAccessProvider (rt : Runtime) : Type 0 where
  pub mcp_cluster : ObjectKey → Call rt (Option rt.Cluster)
  pub mcp_access_request :
      ObjectKey → rt.World → (Option AccessRequest × Option rt.Error) × rt.World
  pub workload_cluster : ObjectKey → Call rt (Option rt.Cluster)
  pub workload_access_request :
      ObjectKey → rt.World → (Option AccessRequest × Option rt.Error) × rt.World
  pub reconcile : ObjectKey → Call rt CtrlResult
  pub reconcile_delete : ObjectKey → Call rt CtrlResult

-- ServiceProviderReconciler: both methods may change the object.
pub record ServiceProviderReconciler (rt : Runtime) (T PC : Type 0) : Type 0 where
  pub create_or_update : PC → ClusterContext rt → Step rt T CtrlResult
  pub delete : PC → ClusterContext rt → Step rt T CtrlResult

-- What the reconcilers call of the onboarding cluster's client, for objects of the API type. The
-- writes fill in the object from the server's reply; `patch_status old` sends the difference to `old`.
-- `list` lists the objects of a kind, as an UnstructuredList.
pub record ObjectClient (rt : Runtime) (T : Type 0) : Type 0 where
  pub get : ObjectKey → Call rt T
  pub create_or_update : (T → T) → Step rt T Unit
  pub update : Step rt T Unit
  pub patch_status : T → Step rt T Unit
  pub list : GroupVersionKind → Call rt (List ObjectKey)
