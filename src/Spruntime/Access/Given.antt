-- ===== src/Spruntime/Access/Given.antt =====
-- Which control plane `clusters` hands over.
use service_provider_otel_co.Base.{
  ◌≡◌, refl, false, Option, none, some, Bool-cases, inl, inr, pure, Gives, bind-Gives,
  bind-Gives_of, if◌then◌else◌, ◌>>=◌,
}
use service_provider_otel_co.Kube.Objects.{ObjectKey, CtrlResult}
use service_provider_otel_co.Kube.Client.{Runtime}
use service_provider_otel_co.Spruntime.Api.{ClusterContext, ClusterAccessProvider}
use service_provider_otel_co.Spruntime.Access.{
  requeues, no_clusters, after_reply, or_missing, access_key, add_clusters, clusters,
}

-- No other cluster than `m`.
abbrev pub IsOnly : {C : Type 0} → C → Option C → Type 0
IsOnly m none = Unit
IsOnly m (some c) = c ≡ m

module _ {rt : Runtime} (car : ClusterAccessProvider rt) (req : ObjectKey) (m : rt.Cluster) where
  abbrev HasMcp : ClusterContext rt → Type 0
  HasMcp ctx = ctx.mcp_cluster ≡ some m

  with_cluster-HasMcp :
      (found : Option rt.Cluster) (w : rt.World)
      → IsOnly m found
      → Gives HasMcp
          ((do
            mcp ← or_missing car false "mcp access missing" found
            key ← after_reply car false (car.mcp_access_request req) (access_key rt)
            let ctx : ClusterContext rt = record (no_clusters rt) {
              mcp_cluster = some mcp;
              mcp_access_secret_key = key;
            }
            pure ctx)
            w).0
  unfolding or_missing
  with_cluster-HasMcp none w only = tt
  with_cluster-HasMcp (some c) w only =
      bind-Gives HasMcp (after_reply car false (car.mcp_access_request req) (access_key rt)) _ w
        (λ key t. rw only refl)

  -- Where the access provider knows one control plane, a provider without a workload cluster that is called
  -- gets that one.
  pub clusters-give :
      ((t : rt.World) → Gives (IsOnly m) (car.mcp_cluster req t).0)
      → (w : rt.World)
      → Gives {A = ClusterContext rt × CtrlResult}
          (λ found. requeues found.1 ≡ false → found.0.mcp_cluster ≡ some m)
          (clusters car false req w).0
  unfolding clusters add_clusters
  clusters-give only w = bind-Gives _ (car.reconcile req) _ w (λ res t. go res t)
    where
      go :
          (res : CtrlResult) (t : rt.World)
          → Gives {A = ClusterContext rt × CtrlResult}
              (λ found. requeues found.1 ≡ false → found.0.mcp_cluster ≡ some m)
              ((if requeues res
                  then pure (no_clusters rt, res)
                  else (do ctx ← add_clusters car false req; pure (ctx, res)))
                t).0
      go res t = elim (Bool-cases (requeues res)) [
        | inl e ↦ rw e (λ h. cc (e, h))
        | inr e ↦ rw e (
            bind-Gives_of HasMcp _ (add_clusters car false req) _ t
              (bind-Gives_of (IsOnly m) HasMcp (car.mcp_cluster req) _ t (only t)
                (λ found u o. with_cluster-HasMcp found u o))
              (λ ctx t' has _. has))
      ]
