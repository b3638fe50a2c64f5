-- ===== src/Resources/PullSecrets/Synced/Returns.antt =====
-- When ReconcileImagePullSecrets returns without an error.
use mathlib.Core.Path.{subst}
use service_provider_otel_co.Base.{
  String, ◌≡◌, refl, ◌∙◌, sym, true, Option, some, is_some, List, [], ◌∷◌, All, All-map, arith, ok,
  Option-cases, inl, inr, bind-step,
}
use service_provider_otel_co.Kube.Objects.{Namespace, ObjectKey, Secret, LocalObjectReference}
use service_provider_otel_co.Kube.Client.{Runtime, Kind, secrets, namespaces, Client}
use service_provider_otel_co.Kube.Laws.{View, IsLawful, Ignores, Serves, StoredAt}
use service_provider_otel_co.Resources.PullSecrets.{
  sync_secret, write_secret, reconcile_image_pull_secrets, new_secret,
}
use service_provider_otel_co.Resources.PullSecrets.Synced.{sync_secret_platform, sync_secret_frame}

module _ {rt : Runtime} {mcp platform : Client rt} {mcp_view platform_view : View rt}
    (L : IsLawful mcp mcp_view) (P : IsLawful platform platform_view)
    (apart : Ignores mcp platform_view)
    (only_read : (k : Kind) (a : ObjectKey) (w : rt.World) (j : Kind) (b : ObjectKey)
      → mcp_view (platform.get k a w).1 j b ≡ mcp_view w j b)
    (S : Serves mcp mcp_view) (Q : Serves platform platform_view) (ns source_ns : String) where
  abbrev target : String → ObjectKey
  target name = record { namespace = ns; name = name }

  abbrev home : ObjectKey
  home = record { namespace = ""; name = ns }

  -- The platform has the secret.
  abbrev pub HasSource : rt.World → LocalObjectReference → Type 0
  HasSource w ref =
      is_some (platform_view w secrets (record { namespace = source_ns; name = ref.name })) ≡ true

  write_secret-returns :
      (name : String) (src : Secret) (w : rt.World) {n : Namespace}
      → mcp_view w namespaces home ≡ some n
      → let read = mcp.get secrets (target name) w in
        (write_secret mcp platform ns source_ns name src read.0 read.1).0 ≡ ok tt
  unfolding write_secret
  write_secret-returns name src w {n} place =
      let w' : rt.World = (mcp.get secrets (target name) w).1 in
      elim (Option-cases (mcp_view w secrets (target name))) [
        | inl e ↦ ground (
          arith,
          S.get_absent secrets (target name) w e,
          S.create_absent secrets (new_secret (target name) src) w'
              (L.get_frame secrets (target name) w secrets (target name) ∙ e)
              (inr (n, L.get_frame secrets (target name) w namespaces home ∙ place)),
        )
        | inr (old, e) ↦
            let key : old.key ≡ target name =
              subst (λ (x : Option Secret). StoredAt secrets (target name) x) e
                (L.stored_key secrets (target name) w) in
            ground (
              arith,
              S.get_present secrets (target name) w e,
              S.update_present secrets (record old { data_map = src.data_map }) w' {old = old}
                  (subst (λ (a : ObjectKey). mcp_view w' secrets a ≡ some old) (sym key)
                    (L.get_frame secrets (target name) w secrets (target name) ∙ e)),
            )
      ]

  sync_secret-returns :
      (ref : LocalObjectReference) (w : rt.World) {src : Secret} {n : Namespace}
      → platform_view w secrets (record { namespace = source_ns; name = ref.name }) ≡ some src
      → mcp_view w namespaces home ≡ some n
      → (sync_secret mcp platform ns source_ns ref w).0 ≡ ok tt
  unfolding sync_secret
  sync_secret-returns ref w {src} from place =
      let source : ObjectKey = record { namespace = source_ns; name = ref.name } in
      rw (Q.get_present secrets source w from) (
        write_secret-returns ref.name src (platform.get secrets source w).1
          (only_read secrets source w namespaces home ∙ place))

  -- Under the same conditions, with clusters that answer: where the target namespace exists and the
  -- platform has every listed secret, the run returns no error.
  pub pull_secrets-returns :
      (refs : List LocalObjectReference) (w : rt.World) {n : Namespace}
      → mcp_view w namespaces home ≡ some n
      → All (HasSource w) refs
      → (reconcile_image_pull_secrets mcp platform ns source_ns refs w).0 ≡ ok tt
  unfolding reconcile_image_pull_secrets
  pull_secrets-returns [] w place from = refl
  pull_secrets-returns (ref ∷ refs) w place (here, there) =
      let sync = sync_secret mcp platform ns source_ns ref in
      elim (Option-cases
        (platform_view w secrets (record { namespace = source_ns; name = ref.name }))) [
          | inl e ↦ absurd (cc (e, here))
          | inr (src, e) ↦
              rw
                (bind-step sync (λ _. reconcile_image_pull_secrets mcp platform ns source_ns refs) w
                  (sync_secret-returns ref w e place))
                (pull_secrets-returns refs (sync w).1
                  (sync_secret_frame L P apart only_read ns source_ns ref w namespaces home refl
                    ∙ place)
                  (All-map
                    (λ other h.
                      rw
                        (sync_secret_platform L P apart only_read ns source_ns ref w
                          (record { namespace = source_ns; name = other.name }))
                        h)
                    refs there))
        ]
