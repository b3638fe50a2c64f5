-- ===== src/Entry/Schemes/Known.antt =====
-- The types that the schemes know once init is through.
use service_provider_otel_co.Base.{
  ◌≡◌, refl, true, List, [], ◌∷◌, All, Exec, Result, ok, err, continue, ◌>>◌, arith,
}
use service_provider_otel_co.Kube.Client.{Kind}
use service_provider_otel_co.Api.Service.{group, version}
use service_provider_otel_co.Entry.Schemes.{
  GoType, kube_object, otel_collector_service, otel_collector_service_list, provider_config,
  provider_config_list, access_request, service_provider, custom_resource_definition, SchemeLibrary,
  register_service, scheme_builder, api_add_to_scheme, init_platform_scheme, init_onboarding_scheme,
  init_mcp_scheme, init, empty_schemes,
}

module _ {Error : Type 0} (lib : SchemeLibrary Error) where
  open lib use {Scheme, Builder}

  -- A step after which the type is known, if it succeeds.
  abbrev Adds : GoType → Exec Error Scheme Unit → Type 0
  Adds t m = (s : Scheme) → (m s).0 ≡ ok tt → lib.knows (m s).1 t ≡ true

  -- A step that forgets no type.
  abbrev ForgetsNone : Exec Error Scheme Unit → Type 0
  ForgetsNone m = (s : Scheme) (t : GoType) → lib.knows s t ≡ true → lib.knows (m s).1 t ≡ true

  -- The libraries' functions add their types, and nothing is forgotten.
  pub record IsAdditive : Type 0 where
    pub register_adds :
        (ts : List GoType) (b : Builder) → All (λ t. lib.adds (lib.register ts b) t ≡ true) ts
    pub register_keeps :
        (ts : List GoType) (b : Builder) (t : GoType)
        → lib.adds b t ≡ true
        → lib.adds (lib.register ts b) t ≡ true
    pub builder_adds :
        (b : Builder) (t : GoType) → lib.adds b t ≡ true → Adds t (lib.add_to_scheme b)
    pub client_go_adds : (k : Kind) → Adds (kube_object k) lib.client_go
    pub api_extensions_adds : Adds custom_resource_definition lib.api_extensions
    pub clusters_adds : Adds access_request lib.clusters
    pub providers_adds : Adds service_provider lib.providers
    pub builder_forgets_none : (b : Builder) → ForgetsNone (lib.add_to_scheme b)
    pub api_extensions_forgets_none : ForgetsNone lib.api_extensions
    pub clusters_forgets_none : ForgetsNone lib.clusters
    pub providers_forgets_none : ForgetsNone lib.providers

  -- What a step of `init` adds, the rest keeps; and the rest adds what it adds anywhere.
  first-Adds :
      (t : GoType) (m n : Exec Error Scheme Unit) → Adds t m → ForgetsNone n → Adds t (m >> n)
  first-Adds t m n a keeps s h = go (m s).0 (m s).1 (a s) h
    where
      go :
          (x : Result Error Unit) (u : Scheme)
          → (x ≡ ok tt → lib.knows u t ≡ true)
          → (continue x (λ _. n) u).0 ≡ ok tt
          → lib.knows (continue x (λ _. n) u).1 t ≡ true
      go (ok _) u known h = keeps u t (known refl)
      go (err e) u known h = cc h

  rest-Adds : (t : GoType) (m n : Exec Error Scheme Unit) → Adds t n → Adds t (m >> n)
  rest-Adds t m n a s h = go (m s).0 (m s).1 h
    where
      go :
          (x : Result Error Unit) (u : Scheme)
          → (continue x (λ _. n) u).0 ≡ ok tt
          → lib.knows (continue x (λ _. n) u).1 t ≡ true
      go (ok _) u h = a u h
      go (err e) u h = cc h

  then-ForgetsNone :
      (m n : Exec Error Scheme Unit) → ForgetsNone m → ForgetsNone n → ForgetsNone (m >> n)
  then-ForgetsNone m n km kn s t h = go (m s).0 (m s).1 (km s t h)
    where
      go :
          (x : Result Error Unit) (u : Scheme)
          → lib.knows u t ≡ true
          → lib.knows (continue x (λ _. n) u).1 t ≡ true
      go (ok _) u h = kn u t h
      go (err e) u h = h

  module _ (L : IsAdditive) where
    service-Adds : Adds otel_collector_service (api_add_to_scheme lib)
    service-Adds =
        let b : Builder = lib.new_builder group version in
        let ts : List GoType = otel_collector_service ∷ otel_collector_service_list ∷ [] in
        L.builder_adds (scheme_builder lib) otel_collector_service (
          L.register_keeps (provider_config ∷ provider_config_list ∷ []) (register_service lib b)
            otel_collector_service (L.register_adds ts b).0)

    config-Adds : Adds provider_config (api_add_to_scheme lib)
    config-Adds =
        let b : Builder = register_service lib (lib.new_builder group version) in
        let ts : List GoType = provider_config ∷ provider_config_list ∷ [] in
        L.builder_adds (scheme_builder lib) provider_config (L.register_adds ts b).0

    -- The last steps of `init_platform_scheme`.
    abbrev from_clusters : Exec Error Scheme Unit
    from_clusters = lib.clusters >> lib.providers

    abbrev from_api : Exec Error Scheme Unit
    from_api = api_add_to_scheme lib >> from_clusters

    from_clusters-ForgetsNone : ForgetsNone from_clusters
    from_clusters-ForgetsNone =
        then-ForgetsNone lib.clusters lib.providers L.clusters_forgets_none L.providers_forgets_none

    from_api-ForgetsNone : ForgetsNone from_api
    from_api-ForgetsNone =
        then-ForgetsNone (api_add_to_scheme lib) from_clusters
          (L.builder_forgets_none (scheme_builder lib)) from_clusters-ForgetsNone

    -- What the scheme of the platform cluster needs to know.
    abbrev PlatformAdds : Exec Error Scheme Unit → Type 0
    PlatformAdds m =
        ((k : Kind) → Adds (kube_object k) m)
        × Adds provider_config m
        × Adds access_request m
        × Adds service_provider m
        × Adds custom_resource_definition m

    platform_scheme-Adds : PlatformAdds (init_platform_scheme lib)
    unfolding init_platform_scheme
    platform_scheme-Adds =
        let skip = λ (t : GoType) (a : Adds t from_api).
          rest-Adds t lib.client_go (lib.api_extensions >> from_api)
            (rest-Adds t lib.api_extensions from_api a) in
        (
          λ k.
              first-Adds (kube_object k) lib.client_go (lib.api_extensions >> from_api)
                (L.client_go_adds k)
                (then-ForgetsNone lib.api_extensions from_api L.api_extensions_forgets_none
                  from_api-ForgetsNone),
          skip provider_config (
              first-Adds provider_config (api_add_to_scheme lib) from_clusters config-Adds
                from_clusters-ForgetsNone),
          skip access_request (
              rest-Adds access_request (api_add_to_scheme lib) from_clusters (
                first-Adds access_request lib.clusters lib.providers L.clusters_adds
                  L.providers_forgets_none)),
          skip service_provider (
              rest-Adds service_provider (api_add_to_scheme lib) from_clusters
                (rest-Adds service_provider lib.clusters lib.providers L.providers_adds)),
          rest-Adds custom_resource_definition lib.client_go (lib.api_extensions >> from_api) (
              first-Adds custom_resource_definition lib.api_extensions from_api
                L.api_extensions_adds from_api-ForgetsNone),
        )

    abbrev OnboardingAdds : Exec Error Scheme Unit → Type 0
    OnboardingAdds m = Adds otel_collector_service m × Adds custom_resource_definition m

    onboarding_scheme-Adds : OnboardingAdds (init_onboarding_scheme lib)
    unfolding init_onboarding_scheme
    onboarding_scheme-Adds =
        let last = lib.api_extensions >> api_add_to_scheme lib in
        (
          rest-Adds otel_collector_service lib.client_go last (
              rest-Adds otel_collector_service lib.api_extensions (api_add_to_scheme lib)
                service-Adds),
          rest-Adds custom_resource_definition lib.client_go last (
              first-Adds custom_resource_definition lib.api_extensions (api_add_to_scheme lib)
                L.api_extensions_adds (L.builder_forgets_none (scheme_builder lib))),
        )

    mcp_scheme-Adds : (k : Kind) → Adds (kube_object k) (init_mcp_scheme lib)
    unfolding init_mcp_scheme
    mcp_scheme-Adds k =
        first-Adds (kube_object k) lib.client_go lib.api_extensions (L.client_go_adds k)
          L.api_extensions_forgets_none

    -- An `init` that does not panic has gone through its three parts.
    init-parts :
        (init lib (empty_schemes lib)).0 ≡ ok tt
        → let new : Scheme = lib.new_scheme in
          ((init_platform_scheme lib new).0 ≡ ok tt)
          × ((init_onboarding_scheme lib new).0 ≡ ok tt)
          × ((init_mcp_scheme lib new).0 ≡ ok tt)
          × ((init lib (empty_schemes lib)).1 ≡ record {
            platform = (init_platform_scheme lib new).1;
            onboarding = (init_onboarding_scheme lib new).1;
            mcp = (init_mcp_scheme lib new).1;
          })
    unfolding init
    init-parts h = ground arith

    -- The library's functions add the types of their packages, and forget none: when `init` does not panic, the
    -- scheme of each cluster knows the types that the program passes to its client. These are, for the control
    -- planes, the five kinds of objects that the controller reconciles; for the onboarding cluster, the
    -- OtelCollectorService and the CRDs; and for the platform cluster, the five kinds, the ProviderConfig, the
    -- AccessRequest, the ServiceProvider and the CRDs.
    pub init_schemes-know :
        (init lib (empty_schemes lib)).0 ≡ ok tt
        → let s = (init lib (empty_schemes lib)).1 in
          ((k : Kind)
            → (lib.knows s.mcp (kube_object k) ≡ true)
              × (lib.knows s.platform (kube_object k) ≡ true))
          × (lib.knows s.onboarding otel_collector_service ≡ true)
          × (lib.knows s.onboarding custom_resource_definition ≡ true)
          × (lib.knows s.platform provider_config ≡ true)
          × (lib.knows s.platform access_request ≡ true)
          × (lib.knows s.platform service_provider ≡ true)
          × (lib.knows s.platform custom_resource_definition ≡ true)
    init_schemes-know h =
        let (p, o, m, is) = init-parts h in
        let new : Scheme = lib.new_scheme in
        let (kinds, config, request, provider, crds) = platform_scheme-Adds in
        rw is (
          λ k. (mcp_scheme-Adds k new m, kinds k new p),
          onboarding_scheme-Adds.0 new o,
          onboarding_scheme-Adds.1 new o,
          config new p,
          request new p,
          provider new p,
          crds new p,
        )
