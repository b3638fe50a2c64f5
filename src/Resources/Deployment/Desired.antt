-- ===== src/Resources/Deployment/Desired.antt =====
-- What ReconcileDeployment makes of the stored deployment.
use service_provider_otel_co.Base.{
  String, ◌≡◌, ◌≢◌, refl, ap, false, Option, none, some, All, arith, ok, text_eq_iff, ◌⊎◌, inl, inr,
}
use service_provider_otel_co.Base.Dict.{lookup, lookup-insert, insert-insert}
use service_provider_otel_co.Kube.Objects.{Labels, PodTemplate, Deployment, ObjectKey}
use service_provider_otel_co.Kube.Client.{Runtime, Kind, deployments, Client}
use service_provider_otel_co.Kube.Laws.{same, View, existing_or, IsLawful}
use service_provider_otel_co.Resources.Constants.{deployment_name, config_hash_annotation}
use service_provider_otel_co.Resources.Deployment.{
  DeploymentOpts, managed_labels, selector_or_app, entries, set_deployment, new_deployment,
  reconcile_deployment,
}

-- The labels have every entry of the selector.
abbrev pub Matches : Labels → Labels → Type 0
Matches selector labels = All (λ e. lookup e.0 labels ≡ some e.1) selector

-- A selector that is set, and that the labels match.
abbrev pub Selects : Option Labels → Labels → Type 0
Selects none labels = ⊥
Selects (some s) labels = Matches s labels

-- Setting the desired state a second time changes nothing.
pub set_deployment_idem :
    (opts : DeploymentOpts) (d : Deployment)
    → set_deployment opts (set_deployment opts d) ≡ set_deployment opts d
unfolding set_deployment
set_deployment_idem opts d = ground (
  arith,
  insert-insert config_hash_annotation opts.config_hash opts.config_hash
      (entries d.template.annotations),
)

-- A selector that is set stays as it is, and so do the key and every annotation of the pods but the hash.
pub set_deployment-keeps :
    (opts : DeploymentOpts) (d : Deployment) (s : Labels) (a : String)
    → d.selector ≡ some s
    → a ≢ config_hash_annotation
    → ((set_deployment opts d).selector ≡ some s)
      × ((set_deployment opts d).key ≡ d.key)
      × (lookup a (entries (set_deployment opts d).template.annotations)
          ≡ lookup a (entries d.template.annotations))
unfolding set_deployment
set_deployment-keeps opts d s a h ne = ground (
  arith,
  lookup-insert config_hash_annotation a opts.config_hash (entries d.template.annotations),
  text_eq_iff config_hash_annotation a,
)

selector_or_app-Selects :
    (x : Option Labels) (l : Labels) → Selects x l → Selects (selector_or_app x) l
selector_or_app-Selects none l h = absurd h
selector_or_app-Selects (some s) l h = h

-- A deployment without a selector, or whose selector the managed labels match, has a selector and pods
-- whose labels match it once the desired state is set.
pub set_deployment-Selects :
    (opts : DeploymentOpts) (d : Deployment)
    → (d.selector ≡ none) ⊎ Selects d.selector managed_labels
    → Selects (set_deployment opts d).selector (set_deployment opts d).template.labels
unfolding set_deployment lookup
set_deployment-Selects opts d (inl new) = rw new (refl, tt)
set_deployment-Selects opts d (inr fits) = selector_or_app-Selects d.selector managed_labels fits

set_deployment-template_hash :
    (o p : DeploymentOpts) (d : Deployment)
    → (set_deployment o d).template ≡ (set_deployment p d).template
    → o.config_hash ≡ p.config_hash
unfolding set_deployment
set_deployment-template_hash o p d h =
    let hash_in : PodTemplate → Option String =
      λ t. lookup config_hash_annotation (entries t.annotations) in
    ground (
      arith,
      ap hash_in h,
      lookup-insert config_hash_annotation config_hash_annotation o.config_hash
          (entries d.template.annotations),
      lookup-insert config_hash_annotation config_hash_annotation p.config_hash
          (entries d.template.annotations),
      text_eq_iff config_hash_annotation config_hash_annotation,
    )

-- Options with different hashes never give the same pod template.
pub set_deployment-hash :
    (o p : DeploymentOpts) (d : Deployment)
    → o.config_hash ≢ p.config_hash
    → (set_deployment o d).template ≢ (set_deployment p d).template
set_deployment-hash o p d ne h = ne (set_deployment-template_hash o p d h)

abbrev pub deployment_key : String → ObjectKey
deployment_key ns = record { namespace = ns; name = deployment_name }

module _ {rt : Runtime} {c : Client rt} {view : View rt} (L : IsLawful c view) where
  -- A run that succeeds has stored the desired state, on top of what was there.
  pub reconcile_deployment-stores :
      (ns : String) (opts : DeploymentOpts) (w : rt.World)
      → (reconcile_deployment c ns opts w).0 ≡ ok tt
      → view (reconcile_deployment c ns opts w).1 deployments (deployment_key ns)
        ≡ some (
            set_deployment opts (
              existing_or deployments (view w deployments (deployment_key ns)) (new_deployment ns)))
  unfolding reconcile_deployment
  reconcile_deployment-stores ns opts w h =
      L.create_or_update-ok deployments (new_deployment ns) (set_deployment opts) w h

  pub reconcile_deployment_frame :
      (ns : String) (opts : DeploymentOpts) (w : rt.World) (j : Kind) (b : ObjectKey)
      → same deployments (deployment_key ns) j b ≡ false
      → view (reconcile_deployment c ns opts w).1 j b ≡ view w j b
  unfolding reconcile_deployment
  reconcile_deployment_frame ns opts w j b h =
      L.create_or_update_frame deployments (new_deployment ns) (set_deployment opts) w j b h
