-- ===== src/Entry/Permissions/Least.antt =====
-- What the requested permissions leave to the user.
use service_provider_otel_co.Base.{
  String, ◌≡◌, ◌⊎◌, inl, inr, true, arith, Bool-cases, text_eq, text_eq_iff, ◌≢◌,
}
use mathlib.Core.Path.{subst}
use service_provider_otel_co.Entry.Permissions.{mcp_permissions, allows}

deletes :
    (group resource : String)
    → allows mcp_permissions "delete" group resource ≡ true
    → (resource ≡ "services") ⊎ (resource ≡ "deployments")
deletes group resource h =
    ground (arith, text_eq_iff "services" resource, text_eq_iff "deployments" resource)

config_maps_read :
    (verb group : String) → allows mcp_permissions verb group "configmaps" ≡ true → verb ≡ "get"
config_maps_read verb group h = ground (arith, text_eq_iff "get" verb)

groups :
    (verb group resource : String)
    → allows mcp_permissions verb group resource ≡ true
    → ((group ≡ "") ⊎ (group ≡ "apps") ⊎ (group ≡ "apiextensions.k8s.io"))
groups verb group resource h = ground (
  arith,
  text_eq_iff "" group,
  text_eq_iff "apps" group,
  text_eq_iff "apiextensions.k8s.io" group,
)

-- Whatever the requested permissions allow is about one of three API groups; it deletes nothing but
-- services and deployments; and of config maps, it only gets them.
pub mcp_permissions-protect :
    (verb group resource : String)
    → allows mcp_permissions verb group resource ≡ true
    → ((group ≡ "") ⊎ (group ≡ "apps") ⊎ (group ≡ "apiextensions.k8s.io"))
      × ((verb ≢ "delete") ⊎ (resource ≡ "services") ⊎ (resource ≡ "deployments"))
      × ((resource ≢ "configmaps") ⊎ (verb ≡ "get"))
mcp_permissions-protect verb group resource h = (
  groups verb group resource h,
  elim (Bool-cases (text_eq verb "delete")) [
    | inl is ↦ inr (
        deletes group resource (
          subst (λ v. allows mcp_permissions v group resource ≡ true)
            ((text_eq_iff verb "delete").0 is) h))
    | inr ne ↦ inl (λ is. let e = (text_eq_iff verb "delete").1 is in absurd cc)
  ],
  elim (Bool-cases (text_eq resource "configmaps")) [
    | inl is ↦ inr (
        config_maps_read verb group (
          subst (λ r. allows mcp_permissions verb group r ≡ true)
            ((text_eq_iff resource "configmaps").0 is) h))
    | inr ne ↦ inl (λ is. let e = (text_eq_iff resource "configmaps").1 is in absurd cc)
  ],
)
