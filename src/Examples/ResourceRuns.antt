-- ===== src/Examples/ResourceRuns.antt =====
-- The theorems on the resources, on the in-memory clusters.
use service_provider_otel_co.Base.{
  ◌≡◌, ◌≢◌, refl, inl, ok, some, none, List, [], ◌∷◌, All, arith, text_eq_iff,
}
use mathlib.Core.List.{Permᴰ}
use service_provider_otel_co.Kube.Objects.{Bytes, Deployment}
use service_provider_otel_co.Kube.Client.{Client, secrets, config_maps}
use service_provider_otel_co.Resources.PullSecrets.{sync_secret, reconcile_image_pull_secrets}
use service_provider_otel_co.Resources.PullSecrets.Synced.{
  IsSynced, pull_secrets-IsSynced, pull_secrets_frame,
}
use service_provider_otel_co.Resources.PullSecrets.Synced.Returns.{pull_secrets-returns}
use service_provider_otel_co.Examples.Serving.{client_at-Serves}
use service_provider_otel_co.Kube.Objects.{Namespace}
use service_provider_otel_co.Resources.Prerequisites.{check_prerequisites, read, verdict}
use service_provider_otel_co.Resources.Prerequisites.Told.{Tells, check_prerequisites-Tells}
use service_provider_otel_co.Resources.Prerequisites.Exact.{object_in}
use service_provider_otel_co.Resources.ConfigHash.{compute_config_hash, value_at, bytes_eq}
use service_provider_otel_co.Resources.ConfigHash.Order.{SameMap, compute_config_hash_order}
use service_provider_otel_co.Resources.ConfigHash.Changes.{compute_config_hash_ambiguous, single}
use service_provider_otel_co.Resources.Deployment.{DeploymentOpts, set_deployment, new_deployment}
use service_provider_otel_co.Resources.Deployment.Desired.{
  Matches, Selects, set_deployment-Selects, set_deployment-hash,
}
use service_provider_otel_co.Resources.Service.{set_service, new_service}
use service_provider_otel_co.Resources.Service.Routes.{Reaches, set_service-routes}
use service_provider_otel_co.Examples.Cluster.{
  World, mcp_site, platform_site, runtime, view_at, client_at,
}
use service_provider_otel_co.Examples.Lawful.{
  client_at-IsLawful, mcp-Ignores_platform, platform-get_frame,
}
use service_provider_otel_co.Examples.Data.{world, registry, user_config, user_secret}

abbrev mcp : Client runtime
mcp = client_at mcp_site

abbrev platform : Client runtime
platform = client_at platform_site

-- The pull secret of the platform, copied to the control plane.
copied-ok :
    (reconcile_image_pull_secrets mcp platform "observability" "openmcp-system"
      (registry ∷ [])
      world).0
    ≡ ok tt
unfolding reconcile_image_pull_secrets sync_secret client_at
copied-ok = refl

pull_secrets-IsSynced_example :
    All
      (IsSynced
        (client_at-IsLawful mcp_site)
        (client_at-IsLawful platform_site)
        mcp-Ignores_platform
        platform-get_frame
        "observability"
        "openmcp-system"
        (reconcile_image_pull_secrets mcp platform "observability" "openmcp-system"
          (registry ∷ [])
          world).1)
      (registry ∷ [])
pull_secrets-IsSynced_example =
    pull_secrets-IsSynced (client_at-IsLawful mcp_site) (client_at-IsLawful platform_site)
      mcp-Ignores_platform platform-get_frame "observability" "openmcp-system" (registry ∷ []) world
      copied-ok

pull_secrets_frame_example :
    view_at mcp_site
      (reconcile_image_pull_secrets mcp platform "observability" "openmcp-system"
        (registry ∷ [])
        world).1
      secrets
      (object_in "observability" "otel-collector-secret")
    ≡ some user_secret
pull_secrets_frame_example =
    pull_secrets_frame (client_at-IsLawful mcp_site) (client_at-IsLawful platform_site)
      mcp-Ignores_platform platform-get_frame "observability" "openmcp-system" (registry ∷ []) world
      secrets (object_in "observability" "otel-collector-secret") (refl, tt)

-- The user's secret is not there yet.
abbrev early : World
early = record world { mcp = record world.mcp { secret_table = [] } }

check_prerequisites-waits :
    (check_prerequisites mcp "observability" early).0
    ≡ ok (verdict mcp "observability" (some user_config) none)
unfolding check_prerequisites read client_at
check_prerequisites-waits = refl

check_prerequisites-Tells_example :
    Tells runtime "observability"
      (view_at mcp_site early config_maps (object_in "observability" "otel-collector-conf"))
      (view_at mcp_site early secrets (object_in "observability" "otel-collector-secret"))
      (verdict mcp "observability" (some user_config) none)
check_prerequisites-Tells_example =
    check_prerequisites-Tells (client_at-IsLawful mcp_site) "observability" early
      check_prerequisites-waits

-- The entries of the user's config in the other order.
abbrev swapped : List (Bytes × Bytes)
swapped = (97 ∷ [], 3 ∷ []) ∷ (99 ∷ [], 1 ∷ 2 ∷ []) ∷ []

value_at-swapped : (k : Bytes) → value_at user_config.data_map k ≡ value_at swapped k
unfolding value_at bytes_eq
value_at-swapped [] = refl
value_at-swapped (x ∷ []) = ground arith
value_at-swapped (x ∷ y ∷ k) = ground arith

config-SameMap : SameMap user_config.data_map swapped
config-SameMap = record { same_keys = ∣ Permᴰ.swap refl refl ∣₁; same_values = value_at-swapped }

secret-SameMap : SameMap user_secret.data_map user_secret.data_map
secret-SameMap = record { same_keys = ∣ Permᴰ.cons refl Permᴰ.nil ∣₁; same_values = λ k. refl }

compute_config_hash_order_example :
    compute_config_hash runtime user_config user_secret
    ≡ compute_config_hash runtime (record user_config { data_map = swapped }) user_secret
compute_config_hash_order_example =
    compute_config_hash_order runtime user_config (record user_config { data_map = swapped })
      user_secret user_secret config-SameMap secret-SameMap

compute_config_hash_ambiguous_example :
    compute_config_hash runtime
      (record user_config { data_map = single (97 ∷ []) (98 ∷ 99 ∷ []) })
      user_secret
    ≡ compute_config_hash runtime
        (record user_config { data_map = single (97 ∷ 98 ∷ []) (99 ∷ []) })
        user_secret
compute_config_hash_ambiguous_example =
    compute_config_hash_ambiguous runtime user_config user_secret (97 ∷ []) (98 ∷ []) (99 ∷ [])

abbrev opts : DeploymentOpts
opts = record {
  image = "otel";
  version = "1";
  resources = none;
  image_pull_secrets = registry ∷ [];
  config_hash = "abc";
}

abbrev deployment : Deployment
deployment = new_deployment "observability"

set_deployment-Selects_example :
    Selects
      (set_deployment opts deployment).selector
      (set_deployment opts deployment).template.labels
set_deployment-Selects_example = set_deployment-Selects opts deployment (inl refl)

abbrev new_opts : DeploymentOpts
new_opts = record opts { config_hash = "abd" }

differ : opts.config_hash ≢ new_opts.config_hash
differ e = cc ((text_eq_iff "abc" "abd").1 e)

set_deployment-hash_example :
    (set_deployment opts deployment).template ≢ (set_deployment new_opts deployment).template
set_deployment-hash_example = set_deployment-hash opts new_opts deployment differ

set_service-routes_example :
    Matches
      (set_service (new_service "observability")).spec.selector
      (set_deployment opts deployment).template.labels
    × All
        (Reaches (set_deployment opts deployment).template.containers)
        (set_service (new_service "observability")).spec.ports
set_service-routes_example = set_service-routes (new_service "observability") opts deployment

abbrev observability : Namespace
observability = record { name = "observability" }

-- The control plane with the collector's namespace.
abbrev world_with_namespace : World
world_with_namespace = record world {
  mcp = record world.mcp { namespace_table = observability ∷ [] };
}

pull_secrets-returns_example :
    (reconcile_image_pull_secrets mcp platform "observability" "openmcp-system"
      (registry ∷ [])
      world_with_namespace).0
    ≡ ok tt
pull_secrets-returns_example =
    pull_secrets-returns (client_at-IsLawful mcp_site) (client_at-IsLawful platform_site)
      mcp-Ignores_platform platform-get_frame (client_at-Serves mcp_site)
      (client_at-Serves platform_site) "observability" "openmcp-system" (registry ∷ [])
      world_with_namespace {n = observability} refl (refl, tt)
