-- ===== src/Examples/SchemeRuns.antt =====
-- The schemes of the program, with the schemes of the libraries as tests of a type's name.
use service_provider_otel_co.Base.{
  String, ◌≡◌, refl, Bool, true, false, ◌||◌, List, [], ◌∷◌, All, All-map, Exec, ok, text_eq,
  text_eq_refl,
}
use service_provider_otel_co.Kube.Client.{
  Kind, namespaces, config_maps, secrets, deployments, services,
}
use service_provider_otel_co.Entry.Schemes.{
  GoType, kube_object, otel_collector_service, otel_collector_service_list, provider_config,
  provider_config_list, access_request, service_provider, custom_resource_definition, SchemeLibrary,
  init, init_platform_scheme, init_onboarding_scheme, init_mcp_scheme, empty_schemes,
}
use service_provider_otel_co.Entry.Schemes.Known.{IsAdditive, init_schemes-know}

abbrev type_name : GoType → String
type_name (kube_object namespaces) = "Namespace"
type_name (kube_object config_maps) = "ConfigMap"
type_name (kube_object secrets) = "Secret"
type_name (kube_object deployments) = "Deployment"
type_name (kube_object services) = "Service"
type_name otel_collector_service = "OtelCollectorService"
type_name otel_collector_service_list = "OtelCollectorServiceList"
type_name provider_config = "ProviderConfig"
type_name provider_config_list = "ProviderConfigList"
type_name access_request = "AccessRequest"
type_name service_provider = "ServiceProvider"
type_name custom_resource_definition = "CustomResourceDefinition"

abbrev Types : Type 0
Types = GoType → Bool

abbrev types_of : List GoType → Types
types_of [] t = false
types_of (x ∷ xs) t = text_eq (type_name x) (type_name t) || types_of xs t

abbrev adding : Types → Exec String Types Unit
adding more s = (ok tt, λ t. more t || s t)

abbrev kubernetes : Types
kubernetes = types_of (
    kube_object namespaces
    ∷ kube_object config_maps
    ∷ kube_object secrets
    ∷ kube_object deployments
    ∷ kube_object services
    ∷ [])

abbrev library : SchemeLibrary String
library = record {
  Scheme = Types;
  Builder = Types;
  new_scheme = λ t. false;
  knows = λ s t. s t;
  new_builder = λ group version t. false;
  register = λ ts b t. types_of ts t || b t;
  adds = λ b t. b t;
  add_to_scheme = adding;
  client_go = adding kubernetes;
  api_extensions = adding (types_of (custom_resource_definition ∷ []));
  clusters = adding (types_of (access_request ∷ []));
  providers = adding (types_of (service_provider ∷ []));
}

or-left : (a b : Bool) → a ≡ true → a || b ≡ true
or-left a b h = rw h refl

or-right : (a b : Bool) → b ≡ true → a || b ≡ true
or-right true b h = refl
or-right false b h = h

types_of-All : (ts : List GoType) → All (λ t. types_of ts t ≡ true) ts
types_of-All [] = tt
types_of-All (x ∷ xs) = (
  or-left (text_eq (type_name x) (type_name x)) (types_of xs x) (text_eq_refl (type_name x)),
  All-map (λ t. or-right (text_eq (type_name x) (type_name t)) (types_of xs t)) xs
      (types_of-All xs),
)

kubernetes-knows : (k : Kind) → kubernetes (kube_object k) ≡ true
kubernetes-knows namespaces = refl
kubernetes-knows config_maps = refl
kubernetes-knows secrets = refl
kubernetes-knows deployments = refl
kubernetes-knows services = refl

library-IsAdditive : IsAdditive library
library-IsAdditive = record {
  register_adds = λ ts b. All-map (λ t. or-left (types_of ts t) (b t)) ts (types_of-All ts);
  register_keeps = λ ts b t. or-right (types_of ts t) (b t);
  builder_adds = λ b t h s _. or-left (b t) (s t) h;
  client_go_adds =
      λ k s _. or-left (kubernetes (kube_object k)) (s (kube_object k)) (kubernetes-knows k);
  api_extensions_adds = λ s _. refl;
  clusters_adds = λ s _. refl;
  providers_adds = λ s _. refl;
  builder_forgets_none = λ b s t. or-right (b t) (s t);
  api_extensions_forgets_none =
      λ s t. or-right (types_of (custom_resource_definition ∷ []) t) (s t);
  clusters_forgets_none = λ s t. or-right (types_of (access_request ∷ []) t) (s t);
  providers_forgets_none = λ s t. or-right (types_of (service_provider ∷ []) t) (s t);
}

library_succeeds : (init library (empty_schemes library)).0 ≡ ok tt
unfolding init init_platform_scheme init_onboarding_scheme init_mcp_scheme
library_succeeds = refl

init_schemes-know_example :
    let s = (init library (empty_schemes library)).1 in
    ((k : Kind) → (s.mcp (kube_object k) ≡ true) × (s.platform (kube_object k) ≡ true))
    × (s.onboarding otel_collector_service ≡ true)
    × (s.onboarding custom_resource_definition ≡ true)
    × (s.platform provider_config ≡ true)
    × (s.platform access_request ≡ true)
    × (s.platform service_provider ≡ true)
    × (s.platform custom_resource_definition ≡ true)
init_schemes-know_example = init_schemes-know library library-IsAdditive library_succeeds
