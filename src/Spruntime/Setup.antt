-- ===== src/Spruntime/Setup.antt =====
-- pkg/spruntime/spreconciler.go and pcreconciler.go: the two methods SetupWithManager, as what they ask of the
-- builder that NewControllerManagedBy gives.
use service_provider_otel_co.Base.{String, none, some, raise}
use service_provider_otel_co.Kube.Client.{Runtime, Call}
use service_provider_otel_co.Spruntime.Builders.{SpBuilder, PcBuilder}

-- For, WatchesRawSource, Named and Complete. The handler of the channel's events is `map_event`, for the
-- reconciler and the kind of `for_object`.
pub record SpSetup (rt : Runtime) (T PC Channel : Type 0) : Type 0 where
  pub for_object : T
  pub updates : Channel
  pub name : String
  pub reconciler : SpBuilder rt T PC

-- WatchesRawSource, Named and Complete: the source is the cache of a cluster, for the type of `watched`, and
-- ExactNamePredicate lets the objects of one name and namespace through.
pub record PcSetup (rt : Runtime) (PC Channel : Type 0) : Type 0 where
  pub cache_of : rt.Cluster
  pub watched : PC
  pub exact_name : String
  pub exact_namespace : String
  pub name : String
  pub reconciler : PcBuilder rt PC Channel

module _ {rt : Runtime} {T PC Channel : Type 0} where
  abbrev pub sp_setup_with_manager :
      (SpSetup rt T PC Channel → Call rt Unit) → SpBuilder rt T PC → String → Channel → Call rt Unit
  sp_setup_with_manager complete r name updates =
      complete (record { for_object = r.empty_obj; updates = updates; name = name; reconciler = r })

module _ {rt : Runtime} {PC Channel : Type 0} where
  abbrev pub pc_setup : PcBuilder rt PC Channel → rt.Cluster → PcSetup rt PC Channel
  pc_setup r platform = record {
    cache_of = platform;
    watched = r.empty_obj;
    exact_name = r.provider_name;
    exact_namespace = "";
    name = "providerconfig";
    reconciler = r;
  }

  -- A nil platform cluster has no cache to give.
  abbrev pub pc_setup_with_manager :
      (PcSetup rt PC Channel → Call rt Unit) → PcBuilder rt PC Channel → Call rt Unit
  pc_setup_with_manager complete r = elim r.platform_cluster [
    | none ↦ raise rt.nil_pointer
    | some platform ↦ complete (pc_setup r platform)
  ]
