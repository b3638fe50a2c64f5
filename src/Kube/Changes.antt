-- ===== src/Kube/Changes.antt =====
-- What a change of one stored object leaves of a cluster.
use service_provider_otel_co.Base.{◌≡◌, refl, true, false, arith, text_eq_iff, Bool-cases, inl, inr}
use service_provider_otel_co.Kube.Objects.{ObjectKey}
use service_provider_otel_co.Kube.Client.{
  Runtime, Kind, namespaces, config_maps, secrets, deployments, services,
}
use service_provider_otel_co.Kube.Laws.{key_eq, same, View}

pub key_eq→eq : (a b : ObjectKey) → key_eq a b ≡ true → a ≡ b
key_eq→eq a b h = ground (arith, text_eq_iff a.namespace b.namespace, text_eq_iff a.name b.name)

-- A cluster stores the same in two states.
abbrev pub Unchanged : (rt : Runtime) → View rt → rt.World → rt.World → Type 0
Unchanged rt view w w' = (j : Kind) (b : ObjectKey) → view w' j b ≡ view w j b

-- The objects of the reference that is left out are the same too.
at_key :
    {A : Type 0} (old new : ObjectKey → A) (a : ObjectKey)
    → new a ≡ old a
    → (b : ObjectKey) → (key_eq a b ≡ false → new b ≡ old b)
    → new b ≡ old b
at_key old new a here b there = elim (Bool-cases (key_eq a b)) [
  | inl e ↦ rw (← key_eq→eq a b e) here
  | inr e ↦ there e
]

module _ (rt : Runtime) (view : View rt) (w w' : rt.World) where
  -- A step that may change one object, and does not, changes nothing.
  pub Unchanged-at :
      (k : Kind) (a : ObjectKey)
      → view w' k a ≡ view w k a
      → ((j : Kind) (b : ObjectKey) → same k a j b ≡ false → view w' j b ≡ view w j b)
      → Unchanged rt view w w'
  Unchanged-at namespaces a here there namespaces b =
      at_key (view w namespaces) (view w' namespaces) a here b (there namespaces b)
  Unchanged-at config_maps a here there config_maps b =
      at_key (view w config_maps) (view w' config_maps) a here b (there config_maps b)
  Unchanged-at secrets a here there secrets b =
      at_key (view w secrets) (view w' secrets) a here b (there secrets b)
  Unchanged-at deployments a here there deployments b =
      at_key (view w deployments) (view w' deployments) a here b (there deployments b)
  Unchanged-at services a here there services b =
      at_key (view w services) (view w' services) a here b (there services b)
  Unchanged-at _ a here there j b = there j b refl
