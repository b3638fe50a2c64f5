-- ===== src/Entry/Schemes.antt =====
-- cmd/service-provider-otel-collector/main.go: the schemes of the three clusters, and init, which fills them; and
-- api/v1alpha1: SchemeBuilder, and the init functions that register the types. A panic of `Must` is an error.
pub mod Known
use service_provider_otel_co.Base.{String, Bool, List, [], ◌∷◌, Exec, ◌>>=◌, ◌>>◌}
use service_provider_otel_co.Kube.Client.{Kind}
use service_provider_otel_co.Api.Service.{group, version}

-- The Go types of objects: those of k8s.io/api, of this repository, of openmcp-operator and of apiextensions.
pub data GoType : Type 0 where
  kube_object : Kind → GoType
  otel_collector_service otel_collector_service_list : GoType
  provider_config provider_config_list : GoType
  access_request service_provider custom_resource_definition : GoType

-- runtime.Scheme and scheme.Builder, and the AddToScheme of the packages that are imported. `knows` says that a
-- type is in a scheme, `adds` that a builder adds it.
pub record SchemeLibrary (Error : Type 0) : Type 1 where
  pub Scheme : Type 0
  pub Builder : Type 0
  pub new_scheme : Scheme
  pub knows : Scheme → GoType → Bool
  pub new_builder : String → String → Builder
  pub register : List GoType → Builder → Builder
  pub adds : Builder → GoType → Bool
  pub add_to_scheme : Builder → Exec Error Scheme Unit
  pub client_go : Exec Error Scheme Unit
  pub api_extensions : Exec Error Scheme Unit
  pub clusters : Exec Error Scheme Unit
  pub providers : Exec Error Scheme Unit

-- The variables platformScheme, onboardingScheme and mcpScheme.
pub record Schemes (Scheme : Type 0) : Type 0 where
  pub platform : Scheme
  pub onboarding : Scheme
  pub mcp : Scheme

module _ {Error : Type 0} (lib : SchemeLibrary Error) where
  open lib use {Scheme, Builder}

  -- The two `Register` calls, in the order of the files.
  abbrev pub register_service : Builder → Builder
  register_service = lib.register (otel_collector_service ∷ otel_collector_service_list ∷ [])

  abbrev pub register_config : Builder → Builder
  register_config = lib.register (provider_config ∷ provider_config_list ∷ [])

  abbrev pub scheme_builder : Builder
  scheme_builder = register_config (register_service (lib.new_builder group version))

  abbrev pub api_add_to_scheme : Exec Error Scheme Unit
  api_add_to_scheme = lib.add_to_scheme scheme_builder

  unfoldable pub init_platform_scheme : Exec Error Scheme Unit
  init_platform_scheme = do
    lib.client_go
    lib.api_extensions
    api_add_to_scheme
    lib.clusters
    lib.providers

  unfoldable pub init_onboarding_scheme : Exec Error Scheme Unit
  init_onboarding_scheme = do lib.client_go; lib.api_extensions; api_add_to_scheme

  unfoldable pub init_mcp_scheme : Exec Error Scheme Unit
  init_mcp_scheme = do lib.client_go; lib.api_extensions

  -- What is done to one of the variables.
  abbrev on_platform : Exec Error Scheme Unit → Exec Error (Schemes Scheme) Unit
  on_platform m s = let (r, x) = m s.platform in (r, record s { platform = x })

  abbrev on_onboarding : Exec Error Scheme Unit → Exec Error (Schemes Scheme) Unit
  on_onboarding m s = let (r, x) = m s.onboarding in (r, record s { onboarding = x })

  abbrev on_mcp : Exec Error Scheme Unit → Exec Error (Schemes Scheme) Unit
  on_mcp m s = let (r, x) = m s.mcp in (r, record s { mcp = x })

  unfoldable pub init : Exec Error (Schemes Scheme) Unit
  init = do
    on_platform init_platform_scheme
    on_onboarding init_onboarding_scheme
    on_mcp init_mcp_scheme

  -- `runtime.NewScheme()`, three times
  abbrev pub empty_schemes : Schemes Scheme
  empty_schemes = record {
    platform = lib.new_scheme;
    onboarding = lib.new_scheme;
    mcp = lib.new_scheme;
  }
