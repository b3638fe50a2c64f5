-- ===== src/Spruntime/Access.antt =====
-- pkg/spruntime/spreconciler.go: areAccessRequestsInDeletion, clusters and retrieveSecretKey
pub mod Granted
pub mod Given
pub mod Frame
use service_provider_otel_co.Base.{
  String, Bool, true, false, ◌||◌, Option, none, some, is_some, pos, is_positive, pure, raise,
  ◌>>=◌, if◌then◌else◌,
}
use service_provider_otel_co.Kube.Objects.{
  ObjectKey, LocalObjectReference, CtrlResult, AccessRequest,
}
use service_provider_otel_co.Kube.Client.{Runtime, Call}
use service_provider_otel_co.Spruntime.Api.{ClusterContext, ClusterAccessProvider}

-- `client.ObjectKey{}`
abbrev pub no_key : ObjectKey
no_key = record { namespace = ""; name = "" }

-- `ctrl.Result{}`
abbrev pub no_requeue : CtrlResult
no_requeue = record { requeue = false; requeue_after = pos 0 }

-- `res.RequeueAfter > 0`
abbrev pub requeues : CtrlResult → Bool
requeues res = is_positive res.requeue_after

-- `ClusterContext{}`
abbrev pub no_clusters : (rt : Runtime) → ClusterContext rt
no_clusters rt = record {
  mcp_cluster = none;
  mcp_access_secret_key = no_key;
  workload_cluster = none;
  workload_access_secret_key = no_key;
}

-- `accessRequest != nil && accessRequest.DeletionTimestamp != nil`
abbrev pub is_marked : Option AccessRequest → Bool
is_marked none = false
is_marked (some ar) = is_some ar.deletion_timestamp

unfoldable pub secret_key : String → Option LocalObjectReference → ObjectKey
secret_key namespace none = no_key
secret_key namespace (some ref) = record { namespace = namespace; name = ref.name }

-- A returned pointer and error.
abbrev pub Reply : Runtime → Type 0
Reply rt = Option AccessRequest × Option rt.Error

module _ (rt : Runtime) where
  -- `IsNotFound(err)`, false for a nil error
  abbrev pub is_missing : Option rt.Error → Bool
  is_missing none = false
  is_missing (some e) = rt.is_not_found e

  abbrev pub or_error : {A : Type 0} → Option rt.Error → A → Call rt A
  or_error none a = pure a
  or_error (some e) a = raise e

  unfoldable pub retrieve_secret_key : Option AccessRequest → Call rt ObjectKey
  unfolding secret_key
  retrieve_secret_key none = raise rt.nil_pointer
  retrieve_secret_key (some ar) = pure (secret_key ar.namespace ar.secret_ref)

  -- The two tests that follow each read of an access request.
  unfoldable pub in_deletion : Reply rt → Call rt Bool
  in_deletion (ar, e) = if is_missing e || is_marked ar then pure true else or_error e false

  -- The two statements that follow each read of an access request for its secret.
  unfoldable pub access_key : Reply rt → Call rt ObjectKey
  unfolding retrieve_secret_key
  access_key (ar, e) = do found ← or_error e ar; retrieve_secret_key found

module _ {rt : Runtime} (car : ClusterAccessProvider rt) (with_workload_cluster : Bool) where
  -- Reads a pointer and an error, and goes on with both.
  abbrev pub after_reply :
      {A : Type 0} → (rt.World → Reply rt × rt.World) → (Reply rt → Call rt A) → Call rt A
  after_reply read f w = let (reply, w') = read w in f reply w'

  unfoldable pub workload_in_deletion : ObjectKey → Bool → Call rt Bool
  workload_in_deletion req true = pure true
  workload_in_deletion req false =
      if with_workload_cluster
      then after_reply (car.workload_access_request req) (in_deletion rt)
      else pure false

  unfoldable pub are_access_requests_in_deletion : ObjectKey → Call rt Bool
  are_access_requests_in_deletion req = do
    mcp ← after_reply (car.mcp_access_request req) (in_deletion rt)
    workload_in_deletion req mcp

  unfoldable pub or_missing : String → Option rt.Cluster → Call rt rt.Cluster
  or_missing m none = raise (rt.new m)
  or_missing m (some cluster) = pure cluster

  unfoldable pub add_workload_cluster : ObjectKey → ClusterContext rt → Call rt (ClusterContext rt)
  add_workload_cluster req clusters = do
    found ← car.workload_cluster req
    workload ← or_missing "workload cluster access missing" found
    key ← after_reply (car.workload_access_request req) (access_key rt)
    pure (record clusters { workload_cluster = some workload; workload_access_secret_key = key })

  unfoldable pub add_clusters : ObjectKey → Call rt (ClusterContext rt)
  add_clusters req = do
    found ← car.mcp_cluster req
    mcp ← or_missing "mcp access missing" found
    key ← after_reply (car.mcp_access_request req) (access_key rt)
    let clusters : ClusterContext rt = record (no_clusters rt) {
      mcp_cluster = some mcp;
      mcp_access_secret_key = key;
    }
    if with_workload_cluster then add_workload_cluster req clusters else pure clusters

  -- The access is set up in part: the caller has to come back after the given time.
  unfoldable pub clusters : ObjectKey → Call rt (ClusterContext rt × CtrlResult)
  clusters req = do
    res ← car.reconcile req
    if requeues res
        then pure (no_clusters rt, res)
        else do clusters ← add_clusters req; pure (clusters, res)
