-- ===== src/Examples/Data.antt =====
-- The objects of the examples: one OtelCollectorService, its config, and the clusters around them.
use service_provider_otel_co.Base.{Bool, false, none, some, [], ◌∷◌, pos}
use service_provider_otel_co.Kube.Objects.{
  AccessRequest, no_kind, ObjectMeta, LocalObjectReference, ConfigMap, Secret,
}
use service_provider_otel_co.Kube.Client.{Run}
use service_provider_otel_co.Api.Service.{OtelCollectorServiceStatus, OtelCollectorService}
use service_provider_otel_co.Api.Config.{ProviderConfig}
use service_provider_otel_co.Spruntime.Api.{ClusterContext}
use service_provider_otel_co.Spruntime.Access.{no_key}
use service_provider_otel_co.Controller.Reconciler.{OtelCollectorServiceReconciler}
use service_provider_otel_co.Examples.Cluster.{World, mcp_site, platform_site, runtime}

abbrev pub metadata : ObjectMeta
metadata = record {
  key = record { namespace = "project"; name = "cp" };
  generation = pos 3;
  finalizers = [];
  deletion_timestamp = none;
}

abbrev pub svcobj : OtelCollectorService
svcobj = record {
  type_meta = no_kind;
  metadata = metadata;
  spec = record {
    collector_image = none;
    collector_version = some "0.150.0";
    resources = none;
    namespace = none;
  };
  status = record { conditions = []; observed_generation = pos 0; phase = "" };
}

abbrev pub registry : LocalObjectReference
registry = record { name = "registry" }

abbrev pub config : ProviderConfig
config = record {
  type_meta = no_kind;
  metadata = metadata;
  spec = record {
    poll_interval = none;
    default_image = some "mirror/otel";
    default_version = none;
    image_pull_secrets = registry ∷ [];
    default_resources = none;
    default_namespace = some "observability";
  };
  status = record { conditions = [] };
}

abbrev pub user_config : ConfigMap
user_config = record {
  key = record { namespace = "observability"; name = "otel-collector-conf" };
  data_map = (99 ∷ [], 1 ∷ 2 ∷ []) ∷ (97 ∷ [], 3 ∷ []) ∷ [];
}

abbrev pub user_secret : Secret
user_secret = record {
  key = record { namespace = "observability"; name = "otel-collector-secret" };
  kind = "Opaque";
  labels = [];
  data_map = (116 ∷ [], 7 ∷ []) ∷ [];
}

abbrev pub registry_secret : Secret
registry_secret = record {
  key = record { namespace = "openmcp-system"; name = "registry" };
  kind = "kubernetes.io/dockerconfigjson";
  labels = [];
  data_map = (100 ∷ [], 9 ∷ []) ∷ [];
}

-- A control plane with the user's config, and a platform with the pull secret.
abbrev pub access_request : AccessRequest
access_request = record {
  namespace = "access";
  deletion_timestamp = none;
  secret_ref = some (record { name = "kubeconfig" });
}

abbrev pub world : World
world = record {
  mcp = record {
    namespace_table = [];
    config_map_table = user_config ∷ [];
    secret_table = user_secret ∷ [];
    deployment_table = [];
    service_table = [];
  };
  platform = record {
    namespace_table = [];
    config_map_table = [];
    secret_table = registry_secret ∷ [];
    deployment_table = [];
    service_table = [];
  };
  service = some svcobj;
  request = some access_request;
}

abbrev pub start : Run runtime OtelCollectorService
start = record { obj = svcobj; world = world }

abbrev pub equal : OtelCollectorServiceStatus → OtelCollectorServiceStatus → Bool
equal s t = false

abbrev pub reconciler : OtelCollectorServiceReconciler runtime
reconciler = record {
  onboarding_cluster = some platform_site;
  platform_cluster = platform_site;
  pod_namespace = "openmcp-system";
}

abbrev pub context : ClusterContext runtime
context = record {
  mcp_cluster = some mcp_site;
  mcp_access_secret_key = no_key;
  workload_cluster = none;
  workload_access_secret_key = no_key;
}
