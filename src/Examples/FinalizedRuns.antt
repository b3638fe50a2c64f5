-- ===== src/Examples/FinalizedRuns.antt =====
-- The deletion of the collector's object, on the in-memory clusters.
use service_provider_otel_co.Base.{
  ◌≡◌, refl, ◌∙◌, ◌⊎◌, inl, inr, List, Bool-cases, Option, none, some, Keeps,
}
use service_provider_otel_co.Kube.Objects.{ObjectKey}
use service_provider_otel_co.Kube.Client.{
  Kind, namespaces, config_maps, secrets, deployments, services, Object, key_of,
}
use service_provider_otel_co.Kube.Laws.{key_eq}
use service_provider_otel_co.Kube.Changes.{key_eq→eq}
use service_provider_otel_co.Spruntime.Reconciler.Order.{Sound}
use service_provider_otel_co.Examples.Store.{find, drop, find-drop_self, find-drop_ne}
use service_provider_otel_co.Spruntime.Reconciler
use service_provider_otel_co.Controller.Finalized.{Separate, Gone, provider, delete-Gone}
use service_provider_otel_co.Examples.Cluster.{World, runtime, mcp_site, view_at, client_at, delete}
use service_provider_otel_co.Examples.Lawful.{client_at-IsLawful}
use service_provider_otel_co.Examples.Data.{svcobj, config, world, equal, reconciler}
use service_provider_otel_co.Examples.Provider.{onboarding}
use service_provider_otel_co.Examples.Tracked.{
  marked, tracking, IsRevoked, IsHeld, tracking-Held, tracking-Shows, tracking-Sound,
}

mcp_delete-IsHeld : (k : Kind) (x : Object k) → Keeps IsHeld ((client_at mcp_site).delete k x)
unfolding client_at delete
mcp_delete-IsHeld k x = record { at = λ w h. go w (view_at mcp_site w k (key_of k x)) h }
  where
    go : (w : World) (old : Option (Object k)) → IsHeld w → IsHeld (delete mcp_site k x old w).1
    go w none h = h
    go w (some y) h = h

mcp_get-IsHeld : (k : Kind) (a : ObjectKey) → Keeps IsHeld ((client_at mcp_site).get k a)
unfolding client_at
mcp_get-IsHeld k a = record { at = λ w h. h }

-- A deletion leaves the request as it is, and puts no object on the control plane.
find-none :
    {A : Type 0} (key : A → ObjectKey) (k j : ObjectKey) (os : List A)
    → find key j os ≡ none
    → find key j (drop key k os) ≡ none
find-none key k j os h = elim (Bool-cases (key_eq k j)) [
  | inl e ↦ rw (key_eq→eq k j e) (find-drop_self key j os)
  | inr e ↦ find-drop_ne key k j os e ∙ h
]

abbrev IsGone : World → Type 0
IsGone =
    Gone client_at equal reconciler onboarding tracking svcobj config mcp_site (view_at mcp_site)

removed-IsGone :
    (k : Kind) (x : Object k) (w : World) (old : Option (Object k))
    → IsGone w
    → IsGone (delete mcp_site k x old w).1
unfolding delete
removed-IsGone k x w none h = h
removed-IsGone namespaces x w (some _) h = h
removed-IsGone config_maps x w (some _) h = h
removed-IsGone secrets x w (some _) h = h
removed-IsGone deployments x w (some _) h =
    (find-none (key_of deployments) (key_of deployments x) _ w.mcp.deployment_table h.0, h.1)
removed-IsGone services x w (some _) h =
    (h.0, find-none (key_of services) (key_of services x) _ w.mcp.service_table h.1)

request-same :
    (k : Kind) (x : Object k) (w : World) (old : Option (Object k))
    → (delete mcp_site k x old w).1.request ≡ w.request
unfolding delete
request-same k x w none = refl
request-same k x w (some _) = refl

mcp_delete-Sound :
    (k : Kind) (x : Object k)
    → Keeps (Sound runtime IsRevoked IsGone) ((client_at mcp_site).delete k x)
unfolding client_at
mcp_delete-Sound k x = record {
  at = λ w h going.
      let old = view_at mcp_site w k (key_of k x) in
      removed-IsGone k x w old (h (rw (← request-same k x w old) going));
}

mcp_get-Sound :
    (k : Kind) (a : ObjectKey)
    → Keeps (Sound runtime IsRevoked IsGone) ((client_at mcp_site).get k a)
unfolding client_at
mcp_get-Sound k a = record { at = λ w h. h }

clusters-Separate :
    Separate client_at equal reconciler onboarding tracking svcobj config mcp_site
      (view_at mcp_site)
      IsHeld
      IsRevoked
clusters-Separate = record {
  lawful = client_at-IsLawful mcp_site;
  access = tracking-Held;
  access_sound = tracking-Sound IsGone;
  only = λ req w. refl;
  get_held = mcp_get-IsHeld;
  delete_held = mcp_delete-IsHeld;
  get_sound = mcp_get-Sound;
  delete_sound = mcp_delete-Sound;
  patch_held = record { at = λ s h. refl };
  patch_sound = record { at = λ s h. h };
  patch_gone = record { at = λ s h. h };
  update_gone = record { at = λ s h. h };
  access_gone = λ req. record { at = λ w h. h };
  mcp_shows = tracking-Shows svcobj.metadata.key;
}

-- The access request is in deletion, so that the collector is not deleted again.
abbrev leaving : World
leaving = record world { request = some marked }

delete-Gone_example :
    let w' =
      (Reconciler.delete
        (provider client_at equal reconciler onboarding tracking svcobj config mcp_site
          (view_at mcp_site))
        config
        (record { obj = svcobj; world = leaving })).1.world in
    (IsHeld w' ⊎ IsGone w') × (IsRevoked w' → IsGone w')
delete-Gone_example =
    delete-Gone client_at equal reconciler onboarding tracking svcobj config mcp_site
      (view_at mcp_site) clusters-Separate leaving refl (λ _. (refl, refl))
