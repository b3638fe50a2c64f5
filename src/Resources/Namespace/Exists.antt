-- ===== src/Resources/Namespace/Exists.antt =====
-- What a successful ReconcileNamespace leaves behind.
use service_provider_otel_co.Base.{
  String, ◌≡◌, true, false, is_some, arith, ok, Option-cases, inl, inr, refl, ◌∙◌,
}
use service_provider_otel_co.Kube.Objects.{ObjectKey}
use service_provider_otel_co.Kube.Client.{Runtime, Kind, namespaces, Client}
use service_provider_otel_co.Kube.Laws.{same, View, IsLawful, Serves}
use service_provider_otel_co.Kube.Changes.{Unchanged}
use service_provider_otel_co.Resources.Namespace.{reconcile_namespace}

abbrev pub key_of_namespace : String → ObjectKey
key_of_namespace ns = record { namespace = ""; name = ns }

module _ {rt : Runtime} {c : Client rt} {view : View rt} where
  pub reconcile_namespace-exists :
      IsLawful c view
      → (ns : String) (w : rt.World) → (reconcile_namespace c ns w).0 ≡ ok tt
      → is_some (view (reconcile_namespace c ns w).1 namespaces (key_of_namespace ns)) ≡ true
  unfolding reconcile_namespace
  reconcile_namespace-exists L ns w h = ground (
    arith,
    L.get_reads namespaces (key_of_namespace ns) w,
    L.get_frame namespaces (key_of_namespace ns) w namespaces (key_of_namespace ns),
    L.create-ok namespaces (record { name = ns }) (c.get namespaces (key_of_namespace ns) w).1,
  )

  -- No other object is touched, whatever the reply.
  pub reconcile_namespace_frame :
      IsLawful c view
      → (ns : String) (w : rt.World) (j : Kind) (b : ObjectKey)
      → same namespaces (key_of_namespace ns) j b ≡ false
      → view (reconcile_namespace c ns w).1 j b ≡ view w j b
  unfolding reconcile_namespace
  reconcile_namespace_frame L ns w j b h = ground (
    arith,
    L.get_frame namespaces (key_of_namespace ns) w j b,
    L.create_frame namespaces (record { name = ns }) (c.get namespaces (key_of_namespace ns) w).1 j
        b h,
  )

  -- A cluster that answers lets it succeed.
  pub reconcile_namespace-returns :
      IsLawful c view
      → Serves c view
      → (ns : String) (w : rt.World) → (reconcile_namespace c ns w).0 ≡ ok tt
  unfolding reconcile_namespace
  reconcile_namespace-returns L S ns w =
      elim (Option-cases (view w namespaces (key_of_namespace ns))) [
        | inl e ↦ ground (
          arith,
          S.get_absent namespaces (key_of_namespace ns) w e,
          L.get_frame namespaces (key_of_namespace ns) w namespaces (key_of_namespace ns),
          S.create_absent namespaces (record { name = ns })
              (c.get namespaces (key_of_namespace ns) w).1
              (L.get_frame namespaces (key_of_namespace ns) w namespaces (key_of_namespace ns) ∙ e)
              (inl refl),
        )
        | inr (n, e) ↦ ground (arith, S.get_present namespaces (key_of_namespace ns) w e)
      ]

  -- Where the namespace exists, a run without an error changes nothing.
  pub reconcile_namespace_stable :
      IsLawful c view
      → (ns : String) (w : rt.World) → is_some (view w namespaces (key_of_namespace ns)) ≡ true
      → (reconcile_namespace c ns w).0 ≡ ok tt
      → Unchanged rt view w (reconcile_namespace c ns w).1
  unfolding reconcile_namespace
  reconcile_namespace_stable L ns w exists h j b = ground (
    arith,
    L.get_reads namespaces (key_of_namespace ns) w,
    L.get_frame namespaces (key_of_namespace ns) w j b,
  )
