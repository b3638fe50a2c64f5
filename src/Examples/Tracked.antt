-- ===== src/Examples/Tracked.antt =====
-- An access provider that keeps one access request in the clusters' state.
use service_provider_otel_co.Base.{ℕ, ◌≡◌, Option, none, some, is_some, true, ok}
use service_provider_otel_co.Kube.Objects.{ObjectKey, AccessRequest}
use service_provider_otel_co.Spruntime.Api.{ClusterAccessProvider}
use service_provider_otel_co.Spruntime.Access.{Reply, no_requeue}
use service_provider_otel_co.Spruntime.Access.Frame.{AccessKeeps}
use service_provider_otel_co.Spruntime.Reconciler.Order.{Sound, Shows}
use service_provider_otel_co.Examples.Cluster.{World, missing, runtime}
use service_provider_otel_co.Examples.Data.{access_request}
use service_provider_otel_co.Examples.Provider.{access}

abbrev pub marked : AccessRequest
marked = record access_request { deletion_timestamp = some 7 }

abbrev pub reply_of : Option AccessRequest → Reply runtime
reply_of none = (none, some missing)
reply_of (some ar) = (some ar, none)

abbrev pub IsThere : Option AccessRequest → Type 0
IsThere none = ⊥
IsThere (some ar) = ar.deletion_timestamp ≡ none

abbrev pub IsGoing : Option AccessRequest → Type 0
IsGoing none = Unit
IsGoing (some ar) = (t : ℕ) × (ar.deletion_timestamp ≡ some t)

-- The request is set up again by each call that sets the access up.
abbrev pub tracking : ClusterAccessProvider runtime
tracking = record access {
  mcp_access_request = λ req w. (reply_of w.request, w);
  reconcile = λ req w. (ok no_requeue, record w { request = some access_request });
  reconcile_delete = λ req w. (ok no_requeue, record w { request = none });
}

abbrev pub IsRevoked : World → Type 0
IsRevoked w = IsGoing w.request

pub tracking-Shows :
    (req : ObjectKey) (w : World) → Shows runtime IsRevoked (tracking.mcp_access_request req w)
tracking-Shows req w = record {
  missing = λ e is _. missing_shows w.request e is;
  marked = λ ar t is at. marked_shows w.request ar t is at;
}
  where
    missing_shows :
        (x : Option AccessRequest) (e : runtime.Error) → (reply_of x).1 ≡ some e → IsGoing x
    missing_shows none e is = tt
    missing_shows (some ar) e is = cc is

    marked_shows :
        (x : Option AccessRequest) (ar : AccessRequest) (t : ℕ)
        → (reply_of x).0 ≡ some ar
        → ar.deletion_timestamp ≡ some t
        → IsGoing x
    marked_shows none ar t is at = tt
    marked_shows (some x) ar t is at = (t, cc (is, at))

-- The object is there.
abbrev pub IsHeld : World → Type 0
IsHeld w = is_some w.service ≡ true

pub tracking-Held : AccessKeeps tracking IsHeld
tracking-Held = record {
  keeps_mcp_cluster = λ req. record { at = λ w h. h };
  keeps_mcp_request = λ req w h. h;
  keeps_workload_cluster = λ req. record { at = λ w h. h };
  keeps_workload_request = λ req w h. h;
  keeps_reconcile = λ req. record { at = λ w h. h };
}

-- What does not depend on the request is kept, and setting the access up leaves nothing revoked.
pub tracking-Sound :
    (cleaned : World → Type 0) → AccessKeeps tracking (Sound runtime IsRevoked cleaned)
tracking-Sound cleaned = record {
  keeps_mcp_cluster = λ req. record { at = λ w h. h };
  keeps_mcp_request = λ req w h. h;
  keeps_workload_cluster = λ req. record { at = λ w h. h };
  keeps_workload_request = λ req w h. h;
  keeps_reconcile = λ req. record { at = λ w h going. absurd (cc going.1) };
}
