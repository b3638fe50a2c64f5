-- ===== src/Spruntime/Builders.antt =====
-- pkg/spruntime/spreconciler.go and pcreconciler.go: the constructors of the two reconcilers. A field that
-- was not set is `none`, Go's nil.
use service_provider_otel_co.Base.{String, Bool, false, Option, none, some}
use service_provider_otel_co.Kube.Client.{Runtime}
use service_provider_otel_co.Spruntime.Api.{
  ServiceProviderApi, ProviderConfigApi, ClusterAccessProvider, ServiceProviderReconciler,
  ObjectClient,
}
use service_provider_otel_co.Spruntime.Reconciler.{SpReconciler}

-- SPReconciler, before its fields are set.
pub record SpBuilder (rt : Runtime) (T PC : Type 0) : Type 0 where
  pub platform_cluster : Option rt.Cluster
  pub onboarding_cluster : Option rt.Cluster
  pub cluster_access : Option (ClusterAccessProvider rt)
  pub service_provider : Option (ServiceProviderReconciler rt T PC)
  pub provider_config : Option PC
  pub with_workload_cluster : Bool
  pub empty_obj : T

module _ {rt : Runtime} {T PC : Type 0} where
  abbrev pub new_sp_reconciler : T → SpBuilder rt T PC
  new_sp_reconciler empty_obj = record {
    platform_cluster = none;
    onboarding_cluster = none;
    cluster_access = none;
    service_provider = none;
    provider_config = none;
    with_workload_cluster = false;
    empty_obj = empty_obj;
  }

  abbrev pub with_platform_cluster : Option rt.Cluster → SpBuilder rt T PC → SpBuilder rt T PC
  with_platform_cluster c r = record r { platform_cluster = c }

  abbrev pub with_onboarding_cluster : Option rt.Cluster → SpBuilder rt T PC → SpBuilder rt T PC
  with_onboarding_cluster c r = record r { onboarding_cluster = c }

  abbrev pub with_cluster_access_reconciler :
      ClusterAccessProvider rt → SpBuilder rt T PC → SpBuilder rt T PC
  with_cluster_access_reconciler car r = record r { cluster_access = some car }

  abbrev pub with_service_provider_reconciler :
      ServiceProviderReconciler rt T PC → SpBuilder rt T PC → SpBuilder rt T PC
  with_service_provider_reconciler dsr r = record r { service_provider = some dsr }

  abbrev pub with_workload : Bool → SpBuilder rt T PC → SpBuilder rt T PC
  with_workload b r = record r { with_workload_cluster = b }

  abbrev pub with_provider_config : PC → SpBuilder rt T PC → SpBuilder rt T PC
  with_provider_config config r = record r { provider_config = some config }

-- PCReconciler; its channel is the one that the other reconciler reads.
pub record PcBuilder (rt : Runtime) (PC Channel : Type 0) : Type 0 where
  pub platform_cluster : Option rt.Cluster
  pub provider_update_channel : Option Channel
  pub provider_name : String
  pub empty_obj : PC

module _ {rt : Runtime} {PC Channel : Type 0} where
  abbrev pub new_pc_reconciler : String → PC → PcBuilder rt PC Channel
  new_pc_reconciler name empty_obj = record {
    platform_cluster = none;
    provider_update_channel = none;
    provider_name = name;
    empty_obj = empty_obj;
  }

  abbrev pub pc_with_platform_cluster :
      Option rt.Cluster → PcBuilder rt PC Channel → PcBuilder rt PC Channel
  pc_with_platform_cluster c r = record r { platform_cluster = c }

  abbrev pub with_update_channel : Channel → PcBuilder rt PC Channel → PcBuilder rt PC Channel
  with_update_channel c r = record r { provider_update_channel = some c }

-- The reconciler that `Reconcile` runs on: it needs the onboarding cluster, the access provider and the
-- domain's reconciler.
module _ {rt : Runtime} {api : ServiceProviderApi} {pcs : ProviderConfigApi} where
  unfoldable pub built_from :
      (rt.Cluster → ObjectClient rt api.Obj)
      → SpBuilder rt api.Obj pcs.Config
      → Option rt.Cluster
      → Option (ClusterAccessProvider rt)
      → Option (ServiceProviderReconciler rt api.Obj pcs.Config)
      → Option (SpReconciler rt api pcs)
  built_from objects r (some c) (some car) (some dsr) = some (record {
    onboarding = objects c;
    cluster_access = car;
    service_provider = dsr;
    provider_config = r.provider_config;
    with_workload_cluster = r.with_workload_cluster;
    empty_obj = r.empty_obj;
  })
  built_from objects r _ _ _ = none

  abbrev pub built :
      (rt.Cluster → ObjectClient rt api.Obj)
      → SpBuilder rt api.Obj pcs.Config
      → Option (SpReconciler rt api pcs)
  built objects r = built_from objects r r.onboarding_cluster r.cluster_access r.service_provider
