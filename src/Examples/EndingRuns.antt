-- ===== src/Examples/EndingRuns.antt =====
-- A deletion by repeated runs, on the in-memory clusters. The access request of the object is marked by the first
-- call that is to revoke it, and set up again by a call that is to set the access up; what it has on the platform
-- is a row of namespaces, of which each call that is to revoke the access removes one.
use service_provider_otel_co.Base.{
  ℕ, suc, String, ◌≡◌, false, true, ◌||◌, Bool, Option, none, some, List, [], ◌∷◌, pos, Result, ok,
  text_eq,
}
use service_provider_otel_co.Kube.Objects.{AccessRequest, CtrlResult, Namespace}
use service_provider_otel_co.Api.Service.{OtelCollectorService, otel_api, finalizer}
use service_provider_otel_co.Spruntime.Api.{ClusterAccessProvider, ObjectClient}
use service_provider_otel_co.Spruntime.Access.{no_requeue}
use service_provider_otel_co.Controller.Ending.{Ending, Terminates}
use service_provider_otel_co.Examples.Cluster.{Fault, World, runtime}
use service_provider_otel_co.Examples.Data.{access_request, svcobj, world, equal}
use service_provider_otel_co.Examples.Provider.{access, onboarding}
use service_provider_otel_co.Examples.Tracked.{marked, reply_of}
use service_provider_otel_co.Examples.ProviderRuns.{request}

abbrev length : List Namespace → ℕ
length [] = 0
length (x ∷ xs) = suc (length xs)

-- A patch of the status leaves the rest of the stored object.
abbrev patched : OtelCollectorService → Option OtelCollectorService → Option OtelCollectorService
patched new none = none
patched new (some o) = some (record o { status = new.status })

abbrev patching : ObjectClient runtime OtelCollectorService
patching = record onboarding {
  patch_status = λ old s.
      (ok tt, record s { world = record s.world { service = patched s.obj s.world.service } });
}

abbrev later : CtrlResult
later = record { requeue = false; requeue_after = pos 5 }

abbrev revoke : List Namespace → World → Result Fault CtrlResult × World
revoke [] w = (ok no_requeue, record w { request = none })
revoke (x ∷ xs) w = (
  ok later,
  record w { platform = record w.platform { namespace_table = xs }; request = some marked },
)

abbrev revoking : ClusterAccessProvider runtime
revoking = record access {
  mcp_access_request = λ req w. (reply_of w.request, w);
  reconcile = λ req w. (ok no_requeue, record w { request = some access_request });
  reconcile_delete = λ req w. revoke w.platform.namespace_table w;
}

-- The object is in deletion, with `n` namespaces left, and its request is there, or not any more.
abbrev IsMarked : Option OtelCollectorService → Type 0
IsMarked none = ⊥
IsMarked (some o) = ((otel_api equal).is_deleted o ≡ true) × (o.metadata.key ≡ request)

abbrev IsWaiting : (Option AccessRequest → Type 0) → ℕ → World → Type 0
IsWaiting R n w = IsMarked w.service × (R w.request × (length w.platform.namespace_table ≡ n))

abbrev IsRevoked : World → Type 0
IsRevoked w = length w.platform.namespace_table ≡ 0

abbrev has : String → List String → Bool
has f [] = false
has f (g ∷ gs) = text_eq g f || has f gs

abbrev IsFree : Option OtelCollectorService → Type 0
IsFree none = Unit
IsFree (some o) = has (finalizer o) o.metadata.finalizers ≡ false

-- Two namespaces are left, and the collector's finalizer is the only one.
abbrev dying : World
dying = record world {
  service = some (record svcobj {
    metadata = record svcobj.metadata {
      finalizers = finalizer svcobj ∷ [];
      deletion_timestamp = some 7;
    };
  });
  platform = record world.platform {
    namespace_table = record { name = "request" } ∷ record { name = "access" } ∷ [];
  };
}
