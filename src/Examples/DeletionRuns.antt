-- ===== src/Examples/DeletionRuns.antt =====
-- A deletion while the access to the clusters is still being set up.
use service_provider_otel_co.Base.{◌≡◌, refl, false, some, ok, pos}
use service_provider_otel_co.Kube.Objects.{CtrlResult}
use service_provider_otel_co.Api.Service.{OtelCollectorService, otel_api}
use service_provider_otel_co.Api.Config.{otel_configs}
use service_provider_otel_co.Spruntime.Access.{
  clusters, are_access_requests_in_deletion, in_deletion, workload_in_deletion,
}
use service_provider_otel_co.Spruntime.Reconciler.{SpReconciler, delete, reconcile}
use service_provider_otel_co.Spruntime.Reconciler.Unfinished.{
  checked, access, Stops, Reported, reconcile_unreported,
}
use service_provider_otel_co.Examples.Cluster.{World, runtime}
use service_provider_otel_co.Examples.Data.{svcobj, config, world, equal}
use service_provider_otel_co.Examples.Provider
use service_provider_otel_co.Examples.Provider.{provider}
use service_provider_otel_co.Examples.ProviderRuns.{request}

abbrev later : CtrlResult
later = record { requeue = false; requeue_after = pos 10000000000 }

abbrev connecting : SpReconciler runtime (otel_api equal) otel_configs
connecting = record provider {
  cluster_access = record Provider.access { reconcile = λ req w. (ok later, w) };
}

abbrev dying : OtelCollectorService
dying = record svcobj { metadata = record svcobj.metadata { deletion_timestamp = some 7 } }

abbrev before : World
before = record world { service = some dying }

requests-checked : (checked connecting dying.metadata.key before).0 ≡ ok false
unfolding are_access_requests_in_deletion in_deletion workload_in_deletion
requests-checked = refl

access-Stops : Stops connecting (access connecting dying.metadata.key before).0 (ok later)
unfolding clusters
access-Stops = (refl, refl)

reconcile_unreported_example :
    Reported connecting
      (ok later)
      dying
      (delete connecting config (record { obj = dying; world = before })).1.obj
    × (reconcile connecting request before
        ≡ (ok later, (access connecting dying.metadata.key before).1))
reconcile_unreported_example =
    reconcile_unreported connecting request before (ok later) refl refl refl requests-checked
      access-Stops
