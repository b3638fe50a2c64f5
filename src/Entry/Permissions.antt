-- ===== src/Entry/Permissions.antt =====
-- cmd/service-provider-otel-collector/main.go: mcpPermissions and onboardingPermissions, and what RBAC
-- says of such rules.
pub mod Covered
pub mod Least
use service_provider_otel_co.Base.{
  String, Bool, false, ◌&&◌, ◌||◌, List, [], ◌∷◌, text_eq, if◌then◌else◌, raise,
}
use service_provider_otel_co.Kube.Client.{
  Runtime, Kind, namespaces, config_maps, secrets, deployments, services, Client,
}

-- rbacv1.PolicyRule
pub record PolicyRule : Type 0 where
  pub api_groups : List String
  pub resources : List String
  pub verbs : List String

-- The six rules of the permissions that are requested for a control plane.
abbrev pub mcp_permissions : List PolicyRule
mcp_permissions =
    record { api_groups = "" ∷ []; resources = "namespaces" ∷ []; verbs = "get" ∷ "create" ∷ [] }
    ∷ record { api_groups = "" ∷ []; resources = "configmaps" ∷ []; verbs = "get" ∷ [] }
    ∷ record {
      api_groups = "" ∷ [];
      resources = "secrets" ∷ [];
      verbs = "get" ∷ "list" ∷ "create" ∷ "update" ∷ [];
    }
    ∷ record {
      api_groups = "" ∷ [];
      resources = "services" ∷ [];
      verbs = "get" ∷ "list" ∷ "create" ∷ "update" ∷ "delete" ∷ [];
    }
    ∷ record {
      api_groups = "apps" ∷ [];
      resources = "deployments" ∷ [];
      verbs = "get" ∷ "list" ∷ "create" ∷ "update" ∷ "delete" ∷ [];
    }
    ∷ record {
      api_groups = "apiextensions.k8s.io" ∷ [];
      resources = "customresourcedefinitions" ∷ [];
      verbs = "get" ∷ "create" ∷ "update" ∷ [];
    }
    ∷ []

abbrev pub onboarding_permissions : List PolicyRule
onboarding_permissions =
    record { api_groups = "*" ∷ []; resources = "*" ∷ []; verbs = "*" ∷ [] } ∷ []

-- RBAC: a rule names what it allows, or "*" for all; a request is allowed if some rule allows it.
abbrev pub names : String → List String → Bool
names x [] = false
names x (y ∷ ys) = text_eq y x || (text_eq y "*" || names x ys)

abbrev pub allows : List PolicyRule → String → String → String → Bool
allows [] verb group resource = false
allows (r ∷ rs) verb group resource =
    (names verb r.verbs && (names group r.api_groups && names resource r.resources))
    || allows rs verb group resource

-- The API group and the resource of a kind.
abbrev pub group_of : Kind → String
group_of namespaces = ""
group_of config_maps = ""
group_of secrets = ""
group_of deployments = "apps"
group_of services = ""

abbrev pub resource_of : Kind → String
resource_of namespaces = "namespaces"
resource_of config_maps = "configmaps"
resource_of secrets = "secrets"
resource_of deployments = "deployments"
resource_of services = "services"

abbrev pub may : List PolicyRule → String → Kind → Bool
may rules verb k = allows rules verb (group_of k) (resource_of k)

-- `controllerutil.CreateOrUpdate` gets the object, and creates or updates it.
abbrev pub may_set : List PolicyRule → Kind → Bool
may_set rules k = may rules "get" k && (may rules "create" k && may rules "update" k)

-- A client with these permissions: the cluster answers a request that no rule allows by an error, and
-- does nothing.
abbrev pub restrict : {rt : Runtime} → List PolicyRule → rt.Error → Client rt → Client rt
restrict rules forbidden c = record {
  get = λ k a w. if may rules "get" k then c.get k a w else raise forbidden w;
  create = λ k o w. if may rules "create" k then c.create k o w else raise forbidden w;
  update = λ k o w. if may rules "update" k then c.update k o w else raise forbidden w;
  delete = λ k o w. if may rules "delete" k then c.delete k o w else raise forbidden w;
  create_or_update =
      λ k o f w. if may_set rules k then c.create_or_update k o f w else raise forbidden w;
}
