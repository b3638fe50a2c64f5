-- ===== src/Examples/Provider.antt =====
-- A service provider on the in-memory clusters: its domain keeps one table of deployments.
use service_provider_otel_co.Base.{
  false, ◌&&◌, Option, none, some, List, [], ◌∷◌, is_empty, Result, ok, err, if◌then◌else◌,
}
use service_provider_otel_co.Kube.Objects.{ObjectKey, is_set}
use service_provider_otel_co.Api.Service.{OtelCollectorService, empty_service, otel_api}
use service_provider_otel_co.Api.Config.{ProviderConfig, otel_configs}
use service_provider_otel_co.Spruntime.Api.{
  ClusterAccessProvider, ServiceProviderReconciler, ObjectClient,
}
use service_provider_otel_co.Spruntime.Access.{no_requeue}
use service_provider_otel_co.Spruntime.Reconciler.{SpReconciler}
use service_provider_otel_co.Examples.Cluster.{Fault, missing, World, Site, mcp_site, runtime}
use service_provider_otel_co.Examples.Data.{access_request, config, equal}

abbrev pub stored : Option OtelCollectorService → Result Fault OtelCollectorService
stored none = err missing
stored (some o) = ok o

abbrev keys : Option OtelCollectorService → List ObjectKey
keys none = []
keys (some o) = o.metadata.key ∷ []

-- An object in deletion is gone when its last finalizer is.
abbrev pub kept : OtelCollectorService → Option OtelCollectorService
kept o =
    if is_set o.metadata.deletion_timestamp && is_empty o.metadata.finalizers then none else some o

abbrev pub onboarding : ObjectClient runtime OtelCollectorService
onboarding = record {
  get = λ key w. (stored w.service, w);
  create_or_update =
      λ f s. (ok tt, record { obj = f s.obj; world = record s.world { service = some (f s.obj) } });
  update = λ s. (ok tt, record s { world = record s.world { service = kept s.obj } });
  patch_status = λ old s. (ok tt, record s { world = record s.world { service = some s.obj } });
  list = λ gvk w. (ok (keys w.service), w);
}

abbrev pub access : ClusterAccessProvider runtime
access = record {
  mcp_cluster = λ req w. (ok (some mcp_site), w);
  mcp_access_request = λ req w. ((some access_request, none), w);
  workload_cluster = λ req w. (ok none, w);
  workload_access_request = λ req w. ((none, some missing), w);
  reconcile = λ req w. (ok no_requeue, w);
  reconcile_delete = λ req w. (ok no_requeue, w);
}

-- Without a control plane this domain would write to the platform.
abbrev pub sets : Option Site → World → World
sets none w = record w { platform = record w.platform { deployment_table = [] } }
sets (some _) w = record w { mcp = record w.mcp { deployment_table = [] } }

abbrev pub domain : ServiceProviderReconciler runtime OtelCollectorService ProviderConfig
domain = record {
  create_or_update = λ pc ctx s. (ok no_requeue, record s { world = sets ctx.mcp_cluster s.world });
  delete = λ pc ctx s. (
    ok no_requeue,
    record s { world = record s.world { mcp = record s.world.mcp { deployment_table = [] } } },
  );
}

abbrev pub provider : SpReconciler runtime (otel_api equal) otel_configs
provider = record {
  onboarding = onboarding;
  cluster_access = access;
  service_provider = domain;
  provider_config = some config;
  with_workload_cluster = false;
  empty_obj = empty_service;
}
