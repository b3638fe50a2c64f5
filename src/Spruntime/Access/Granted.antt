-- ===== src/Spruntime/Access/Granted.antt =====
-- What a successful `clusters` hands over.
use service_provider_otel_co.Base.{
  ◌≡◌, refl, Bool, true, false, Option, none, some, is_some, arith, Bool-cases, inl, inr, pure,
  Gives, bind-Gives, bind-Gives_of, if◌then◌else◌, ◌>>=◌,
}
use service_provider_otel_co.Kube.Objects.{ObjectKey, CtrlResult}
use service_provider_otel_co.Kube.Client.{Runtime}
use service_provider_otel_co.Spruntime.Api.{ClusterContext, ClusterAccessProvider}
use service_provider_otel_co.Spruntime.Access.{
  requeues, no_clusters, after_reply, or_missing, access_key, add_workload_cluster, add_clusters,
  clusters,
}

-- The clusters that a service provider needs are there.
pub record HasAccess {rt : Runtime} (with_workload_cluster : Bool) (ctx : ClusterContext rt)
    : Type 0 where
  pub mcp : is_some ctx.mcp_cluster ≡ true
  pub workload : with_workload_cluster ≡ true → is_some ctx.workload_cluster ≡ true

-- A reply of `clusters` that asks for no requeue has access.
abbrev pub Grants : {rt : Runtime} → Bool → ClusterContext rt × CtrlResult → Type 0
Grants b (ctx, res) = requeues res ≡ false → HasAccess b ctx

module _ {rt : Runtime} (car : ClusterAccessProvider rt) (req : ObjectKey) where
  add_workload-HasAccess :
      (b : Bool) (ctx : ClusterContext rt) (w : rt.World)
      → is_some ctx.mcp_cluster ≡ true
      → Gives (HasAccess b) (add_workload_cluster car b req ctx w).0
  unfolding add_workload_cluster or_missing
  add_workload-HasAccess b ctx w m = ground arith

  rest-HasAccess :
      (b : Bool) (ctx : ClusterContext rt) (w : rt.World)
      → is_some ctx.mcp_cluster ≡ true
      → Gives (HasAccess b) ((if b then add_workload_cluster car b req ctx else pure ctx) w).0
  rest-HasAccess true ctx w m = add_workload-HasAccess true ctx w m
  rest-HasAccess false ctx w m = record { mcp = m; workload = λ h. cc h }

  with_cluster-HasAccess :
      (b : Bool) (found : Option rt.Cluster) (w : rt.World)
      → Gives
          (HasAccess b)
          ((do
            mcp ← or_missing car b "mcp access missing" found
            key ← after_reply car b (car.mcp_access_request req) (access_key rt)
            let ctx : ClusterContext rt = record (no_clusters rt) {
              mcp_cluster = some mcp;
              mcp_access_secret_key = key;
            }
            if b then add_workload_cluster car b req ctx else pure ctx)
            w).0
  unfolding or_missing
  with_cluster-HasAccess b none w = tt
  with_cluster-HasAccess b (some mcp) w =
      bind-Gives (HasAccess b) (after_reply car b (car.mcp_access_request req) (access_key rt)) _ w
        (λ key t. rest-HasAccess b _ t refl)

  add_clusters-HasAccess :
      (b : Bool) (w : rt.World) → Gives (HasAccess b) (add_clusters car b req w).0
  unfolding add_clusters
  add_clusters-HasAccess b w =
      bind-Gives (HasAccess b) (car.mcp_cluster req) _ w
        (λ found t. with_cluster-HasAccess b found t)

  -- Whatever the access provider replies, a service provider that is called gets a control plane,
  -- and a workload cluster if it asked for one.
  pub clusters-Grants : (b : Bool) (w : rt.World) → Gives (Grants b) (clusters car b req w).0
  unfolding clusters
  clusters-Grants b w = bind-Gives (Grants b) (car.reconcile req) _ w (λ res t. go res t)
    where
      go :
          (res : CtrlResult) (t : rt.World)
          → Gives
              (Grants b)
              ((if requeues res
                  then pure (no_clusters rt, res)
                  else (do ctx ← add_clusters car b req; pure (ctx, res)))
                t).0
      go res t = elim (Bool-cases (requeues res)) [
        | inl e ↦ rw e (λ h. cc (e, h))
        | inr e ↦ rw e (
            bind-Gives_of (HasAccess b) (Grants b) (add_clusters car b req) _ t
              (add_clusters-HasAccess b t) (λ ctx t' has _. has))
      ]
