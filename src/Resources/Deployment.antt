-- ===== src/Resources/Deployment.antt =====
-- internal/resources/deployment.go: ReconcileDeployment
pub mod Desired
use service_provider_otel_co.Base.{String, ◌<>◌, Option, none, some, List, [], ◌∷◌}
use service_provider_otel_co.Base.Dict.{insert}
use service_provider_otel_co.Kube.Objects.{
  Labels, LocalObjectReference, tcp, from_int, Probe, Volume, ResourceRequirements, Container,
  PodTemplate, Deployment,
}
use service_provider_otel_co.Kube.Client.{Runtime, Call, deployments, Client}
use service_provider_otel_co.Resources.Constants.{
  config_map_name, config_map_key, secret_name, deployment_name, container_name, config_volume_name,
  managed_by_label, managed_by_value, app_label, app_value, config_hash_annotation,
}

pub record DeploymentOpts : Type 0 where
  pub image : String
  pub version : String
  pub resources : Option ResourceRequirements
  pub image_pull_secrets : List LocalObjectReference
  pub config_hash : String

-- `map[string]string` of the labels of everything that the provider manages.
abbrev pub managed_labels : Labels
managed_labels = (app_label, app_value) ∷ (managed_by_label, managed_by_value) ∷ []

abbrev pub app_selector : Labels
app_selector = (app_label, app_value) ∷ []

abbrev pub health_probe : Probe
health_probe = record { path = "/"; port = from_int 13133 }

abbrev pub no_resources : ResourceRequirements
no_resources = record { limits = []; requests = [] }

abbrev pub or_zero : Option ResourceRequirements → ResourceRequirements
or_zero none = no_resources
or_zero (some r) = r

unfoldable pub container : DeploymentOpts → Container
container opts = record {
  name = container_name;
  image = opts.image <> (":" <> opts.version);
  command = "/otelcol-contrib" ∷ "--config=/conf/otel-collector-config.yaml" ∷ [];
  env_from = record { name = secret_name } ∷ [];
  ports =
      record { name = "otlp-grpc"; container_port = 4317; protocol = tcp }
      ∷ record { name = "otlp-http"; container_port = 4318; protocol = tcp }
      ∷ record { name = "metrics"; container_port = 8888; protocol = tcp }
      ∷ [];
  liveness_probe = health_probe;
  readiness_probe = health_probe;
  volume_mounts = record { name = config_volume_name; mount_path = "/conf" } ∷ [];
  resources = or_zero opts.resources;
}

abbrev pub config_volume : Volume
config_volume = record {
  name = config_volume_name;
  config_map = record { name = config_map_name };
  items = record { key = config_map_key; path = "otel-collector-config.yaml" } ∷ [];
}

-- `if deployment.Spec.Selector == nil`
abbrev pub selector_or_app : Option Labels → Option Labels
selector_or_app none = some app_selector
selector_or_app (some s) = some s

-- `if … Annotations == nil { … = map[string]string{} }`
abbrev pub entries : Option Labels → Labels
entries none = []
entries (some m) = m

-- The function that sets the desired state.
unfoldable pub set_deployment : DeploymentOpts → Deployment → Deployment
unfolding container
set_deployment opts deployment = record deployment {
  labels = managed_labels;
  selector = selector_or_app deployment.selector;
  replicas = some 1;
  template = record deployment.template {
    labels = managed_labels;
    annotations =
        some (
          insert config_hash_annotation opts.config_hash (entries deployment.template.annotations));
    image_pull_secrets = opts.image_pull_secrets;
    volumes = config_volume ∷ [];
    containers = container opts ∷ [];
  };
}

abbrev pub empty_template : PodTemplate
empty_template = record {
  labels = [];
  annotations = none;
  image_pull_secrets = [];
  volumes = [];
  containers = [];
}

abbrev pub new_deployment : String → Deployment
new_deployment ns = record {
  key = record { namespace = ns; name = deployment_name };
  labels = [];
  selector = none;
  replicas = none;
  template = empty_template;
}

unfoldable pub reconcile_deployment :
    {rt : Runtime} → Client rt → String → DeploymentOpts → Call rt Unit
reconcile_deployment c ns opts =
    c.create_or_update deployments (new_deployment ns) (set_deployment opts)
