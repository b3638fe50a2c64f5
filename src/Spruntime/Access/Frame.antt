-- ===== src/Spruntime/Access/Frame.antt =====
-- What the calls of the access provider keep, the reconciler's own code keeps.
use service_provider_otel_co.Base.{
  String, Bool, true, false, Option, none, some, Keeps, Keeps-bind, Keeps-pure, Keeps-if,
  keeps_rules,
}
use service_provider_otel_co.Kube.Objects.{ObjectKey}
use service_provider_otel_co.Kube.Client.{Runtime, Call}
use service_provider_otel_co.Spruntime.Api.{ClusterContext, ClusterAccessProvider}
use service_provider_otel_co.Spruntime.Access.{
  Reply, requeues, in_deletion, access_key, retrieve_secret_key, or_missing, after_reply,
  add_workload_cluster, add_clusters, clusters, workload_in_deletion,
  are_access_requests_in_deletion,
}

-- Every call of the provider but the one that revokes the access keeps `P`.
pub record AccessKeeps {rt : Runtime} (car : ClusterAccessProvider rt) (P : rt.World → Type 0)
    : Type 0 where
  pub keeps_mcp_cluster : (req : ObjectKey) → Keeps P (car.mcp_cluster req)
  pub keeps_mcp_request :
      (req : ObjectKey) (w : rt.World) → P w → P (car.mcp_access_request req w).1
  pub keeps_workload_cluster : (req : ObjectKey) → Keeps P (car.workload_cluster req)
  pub keeps_workload_request :
      (req : ObjectKey) (w : rt.World) → P w → P (car.workload_access_request req w).1
  pub keeps_reconcile : (req : ObjectKey) → Keeps P (car.reconcile req)

module _ {rt : Runtime} {car : ClusterAccessProvider rt} {P : rt.World → Type 0}
    (K : AccessKeeps car P) (b : Bool) where
  after_reply-Keeps :
      {A : Type 0} (read : rt.World → Reply rt × rt.World) (f : Reply rt → Call rt A)
      → ((w : rt.World) → P w → P (read w).1)
      → ((x : Reply rt) → Keeps P (f x))
      → Keeps P (after_reply car b read f)
  after_reply-Keeps read f kr kf = record {
    at = λ w h. let (x, w') = read w in (kf x).at w' (kr w h);
  }

  in_deletion-Keeps : (x : Reply rt) → Keeps P (in_deletion rt x)
  unfolding in_deletion
  in_deletion-Keeps (ar, none) = search keeps_rules
  in_deletion-Keeps (ar, some e) = search keeps_rules

  access_key-Keeps : (x : Reply rt) → Keeps P (access_key rt x)
  unfolding access_key retrieve_secret_key
  access_key-Keeps (none, none) = record { at = λ w h. h }
  access_key-Keeps (some ar, none) = record { at = λ w h. h }
  access_key-Keeps (ar, some e) = record { at = λ w h. h }

  workload_in_deletion-Keeps :
      (req : ObjectKey) (x : Bool) → Keeps P (workload_in_deletion car b req x)
  unfolding workload_in_deletion
  workload_in_deletion-Keeps req true = record { at = λ w h. h }
  workload_in_deletion-Keeps req false =
      Keeps-if b _ _
        (after_reply-Keeps (car.workload_access_request req) (in_deletion rt)
          (K.keeps_workload_request req) in_deletion-Keeps)
        (Keeps-pure false)

  pub are_access_requests_in_deletion-Keeps :
      (req : ObjectKey) → Keeps P (are_access_requests_in_deletion car b req)
  unfolding are_access_requests_in_deletion
  are_access_requests_in_deletion-Keeps req =
      Keeps-bind _ _
        (after_reply-Keeps (car.mcp_access_request req) (in_deletion rt) (K.keeps_mcp_request req)
          in_deletion-Keeps)
        (workload_in_deletion-Keeps req)

  or_missing-Keeps : (m : String) (x : Option rt.Cluster) → Keeps P (or_missing car b m x)
  unfolding or_missing
  or_missing-Keeps m none = record { at = λ w h. h }
  or_missing-Keeps m (some c) = record { at = λ w h. h }

  add_workload_cluster-Keeps :
      (req : ObjectKey) (ctx : ClusterContext rt) → Keeps P (add_workload_cluster car b req ctx)
  unfolding add_workload_cluster
  add_workload_cluster-Keeps req ctx = Keeps-bind _ _ (K.keeps_workload_cluster req) λ found.
      Keeps-bind _ _ (or_missing-Keeps _ found) λ c.
        Keeps-bind _ _
          (after_reply-Keeps (car.workload_access_request req) (access_key rt)
            (K.keeps_workload_request req) access_key-Keeps)
          (λ key. Keeps-pure _)

  add_clusters-Keeps : (req : ObjectKey) → Keeps P (add_clusters car b req)
  unfolding add_clusters
  add_clusters-Keeps req = Keeps-bind _ _ (K.keeps_mcp_cluster req) λ found.
      Keeps-bind _ _ (or_missing-Keeps _ found) λ c.
        Keeps-bind _ _
          (after_reply-Keeps (car.mcp_access_request req) (access_key rt) (K.keeps_mcp_request req)
            access_key-Keeps)
          (λ key. Keeps-if b _ _ (add_workload_cluster-Keeps req _) (Keeps-pure _))

  pub clusters-Keeps : (req : ObjectKey) → Keeps P (clusters car b req)
  unfolding clusters
  clusters-Keeps req = Keeps-bind _ _ (K.keeps_reconcile req) λ res.
      Keeps-if (requeues res) _ _ (Keeps-pure _)
        (Keeps-bind _ _ (add_clusters-Keeps req) (λ ctx. Keeps-pure _))
