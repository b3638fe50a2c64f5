-- ===== src/Resources/PullSecrets/Synced.antt =====
-- What a successful ReconcileImagePullSecrets leaves behind.
pub mod Returns
pub mod Stable
use mathlib.Core.Path.{subst}
use service_provider_otel_co.Base.{
  String, ◌≡◌, refl, ◌∙◌, sym, true, false, Option, none, some, is_some, List, [], ◌∷◌, All, arith,
  Result, ok, err, Bool-cases, Result-cases, inl, inr, text_eq, text_eq_iff, text_eq_refl, bind-ok,
}
use service_provider_otel_co.Kube.Objects.{Bytes, ObjectKey, Secret, LocalObjectReference}
use service_provider_otel_co.Kube.Client.{Runtime, Kind, secrets, Client}
use service_provider_otel_co.Kube.Laws.{same, View, IsLawful, Ignores, Reads, StoredAt}
use service_provider_otel_co.Resources.PullSecrets.{
  sync_secret, write_secret, reconcile_image_pull_secrets, new_secret,
}

abbrev pub data_of : Option Secret → Option (List (Bytes × Bytes))
data_of none = none
data_of (some s) = some s.data_map

module _ {rt : Runtime} {mcp platform : Client rt} {mcp_view platform_view : View rt}
    (L : IsLawful mcp mcp_view) (P : IsLawful platform platform_view)
    (apart : Ignores mcp platform_view)
    (only_read : (k : Kind) (a : ObjectKey) (w : rt.World) (j : Kind) (b : ObjectKey)
      → mcp_view (platform.get k a w).1 j b ≡ mcp_view w j b)
    (ns source_ns : String) where
  abbrev target : String → ObjectKey
  target name = record { namespace = ns; name = name }

  abbrev source : String → ObjectKey
  source name = record { namespace = source_ns; name = name }

  -- The target secret is there, with the data of the platform's.
  pub record IsSynced (w : rt.World) (ref : LocalObjectReference) : Type 0 where
    pub present : is_some (mcp_view w secrets (target ref.name)) ≡ true
    pub copied :
        data_of (mcp_view w secrets (target ref.name))
        ≡ data_of (platform_view w secrets (source ref.name))

  write_secret-IsSynced :
      (ref : LocalObjectReference) (src : Secret) (r : Result rt.Error Secret) (w : rt.World)
      → Reads rt r (mcp_view w secrets (target ref.name))
      → StoredAt secrets (target ref.name) (mcp_view w secrets (target ref.name))
      → platform_view w secrets (source ref.name) ≡ some src
      → (write_secret mcp platform ns source_ns ref.name src r w).0 ≡ ok tt
      → IsSynced (write_secret mcp platform ns source_ns ref.name src r w).1 ref
  unfolding write_secret
  write_secret-IsSynced ref src (err e) w reads key from h =
      let o : Secret = new_secret (target ref.name) src in
      ground
        (arith, L.create-ok secrets o w, apart.ignores_create secrets o w secrets (source ref.name))
  write_secret-IsSynced ref src (ok dst) w reads key from h =
      let o : Secret = record dst { data_map = src.data_map } in
      ground
        (arith, L.update-ok secrets o w, apart.ignores_update secrets o w secrets (source ref.name))

  copy-IsSynced :
      (ref : LocalObjectReference) (src : Secret) (w : rt.World)
      → platform_view w secrets (source ref.name) ≡ some src
      → let read = mcp.get secrets (target ref.name) w in
        (write_secret mcp platform ns source_ns ref.name src read.0 read.1).0 ≡ ok tt
        → IsSynced (write_secret mcp platform ns source_ns ref.name src read.0 read.1).1 ref
  copy-IsSynced ref src w from h =
      let (r, w') = mcp.get secrets (target ref.name) w in
      write_secret-IsSynced ref src r w'
        (rw (L.get_frame secrets (target ref.name) w secrets (target ref.name))
          (L.get_reads secrets (target ref.name) w))
        (L.stored_key secrets (target ref.name) w')
        (apart.ignores_get secrets (target ref.name) w secrets (source ref.name) ∙ from) h

  sync_secret-IsSynced :
      (ref : LocalObjectReference) (w : rt.World)
      → (sync_secret mcp platform ns source_ns ref w).0 ≡ ok tt
      → IsSynced (sync_secret mcp platform ns source_ns ref w).1 ref
  unfolding sync_secret
  sync_secret-IsSynced ref w h = elim (Result-cases (platform.get secrets (source ref.name) w).0) [
    | inl (src, e) ↦ rw e (
        copy-IsSynced ref src (platform.get secrets (source ref.name) w).1
          (P.get_frame secrets (source ref.name) w secrets (source ref.name)
            ∙ (rw e at (P.get_reads secrets (source ref.name) w)))
          (rw e at h))
    | inr (f, e) ↦ cc (e, h)
  ]

  write_secret_frame :
      (name : String) (src : Secret) (r : Result rt.Error Secret) (w : rt.World)
      → Reads rt r (mcp_view w secrets (target name))
      → StoredAt secrets (target name) (mcp_view w secrets (target name))
      → (j : Kind) (b : ObjectKey) → same secrets (target name) j b ≡ false
      → mcp_view (write_secret mcp platform ns source_ns name src r w).1 j b ≡ mcp_view w j b
  unfolding write_secret
  write_secret_frame name src (err e) w reads key j b h =
      ground (arith, L.create_frame secrets (new_secret (target name) src) w j b h)
  write_secret_frame name src (ok dst) w reads key j b h =
      L.update_frame secrets (record dst { data_map = src.data_map }) w j b (rw (rw reads at key) h)

  copy_frame :
      (name : String) (src : Secret) (w : rt.World) (j : Kind) (b : ObjectKey)
      → same secrets (target name) j b ≡ false
      → let read = mcp.get secrets (target name) w in
        mcp_view (write_secret mcp platform ns source_ns name src read.0 read.1).1 j b
        ≡ mcp_view w j b
  copy_frame name src w j b h =
      let (r, w') = mcp.get secrets (target name) w in
      write_secret_frame name src r w'
        (rw (L.get_frame secrets (target name) w secrets (target name))
          (L.get_reads secrets (target name) w))
        (L.stored_key secrets (target name) w') j b h
      ∙ L.get_frame secrets (target name) w j b

  pub sync_secret_frame :
      (ref : LocalObjectReference) (w : rt.World) (j : Kind) (b : ObjectKey)
      → same secrets (target ref.name) j b ≡ false
      → mcp_view (sync_secret mcp platform ns source_ns ref w).1 j b ≡ mcp_view w j b
  unfolding sync_secret
  sync_secret_frame ref w j b h = elim (Result-cases (platform.get secrets (source ref.name) w).0) [
    | inl (src, e) ↦ rw e (
        copy_frame ref.name src (platform.get secrets (source ref.name) w).1 j b h
        ∙ only_read secrets (source ref.name) w j b)
    | inr (f, e) ↦ rw e (only_read secrets (source ref.name) w j b)
  ]

  write_secret_platform :
      (name : String) (src : Secret) (r : Result rt.Error Secret) (w : rt.World) (b : ObjectKey)
      → platform_view (write_secret mcp platform ns source_ns name src r w).1 secrets b
        ≡ platform_view w secrets b
  unfolding write_secret
  write_secret_platform name src (err e) w b =
      ground (arith, apart.ignores_create secrets (new_secret (target name) src) w secrets b)
  write_secret_platform name src (ok dst) w b =
      apart.ignores_update secrets (record dst { data_map = src.data_map }) w secrets b

  pub sync_secret_platform :
      (ref : LocalObjectReference) (w : rt.World) (b : ObjectKey)
      → platform_view (sync_secret mcp platform ns source_ns ref w).1 secrets b
        ≡ platform_view w secrets b
  unfolding sync_secret
  sync_secret_platform ref w b = elim (Result-cases (platform.get secrets (source ref.name) w).0) [
    | inl (src, e) ↦
        let w₁ : rt.World = (platform.get secrets (source ref.name) w).1 in
        let read = mcp.get secrets (target ref.name) w₁ in
        rw e (
          write_secret_platform ref.name src read.0 read.1 b
          ∙ (apart.ignores_get secrets (target ref.name) w₁ secrets b
              ∙ P.get_frame secrets (source ref.name) w secrets b))
    | inr (f, e) ↦ rw e (P.get_frame secrets (source ref.name) w secrets b)
  ]

  -- A later turn of the loop leaves an earlier secret in step, also one of the same name.
  sync_secret-keeps :
      (ref other : LocalObjectReference) (w : rt.World)
      → (sync_secret mcp platform ns source_ns ref w).0 ≡ ok tt
      → IsSynced w other
      → IsSynced (sync_secret mcp platform ns source_ns ref w).1 other
  sync_secret-keeps ref other w h s = elim (Bool-cases (text_eq ref.name other.name)) [
    | inl e ↦ rw (← (text_eq_iff ref.name other.name).0 e) (sync_secret-IsSynced ref w h)
    | inr e ↦
        let frame : mcp_view (sync_secret mcp platform ns source_ns ref w).1 secrets
              (target other.name)
            ≡ mcp_view w secrets (target other.name) =
          sync_secret_frame ref w secrets (target other.name)
            (ground (arith, e, text_eq_refl ns)) in
        record {
          present = rw frame s.present;
          copied = rw (frame, sync_secret_platform ref w (source other.name)) s.copied;
        }
  ]

  loop-keeps :
      (refs : List LocalObjectReference) (other : LocalObjectReference) (w : rt.World)
      → (reconcile_image_pull_secrets mcp platform ns source_ns refs w).0 ≡ ok tt
      → IsSynced w other
      → IsSynced (reconcile_image_pull_secrets mcp platform ns source_ns refs w).1 other
  unfolding reconcile_image_pull_secrets
  loop-keeps [] other w h s = s
  loop-keeps (ref ∷ refs) other w h s =
      let sync = sync_secret mcp platform ns source_ns ref in
      let rest = reconcile_image_pull_secrets mcp platform ns source_ns refs in
      let (_, done, step) = bind-ok sync (λ _. rest) w h in
      rw step
        (loop-keeps refs other (sync w).1 (rw step at h) (sync_secret-keeps ref other w done s))

  -- After a run without an error every listed secret is on the control plane, with the data that the
  -- platform's secret has. Both clients are lawful, the control plane's calls leave the platform alone,
  -- and reads of the platform leave the control plane alone.
  pub pull_secrets-IsSynced :
      (refs : List LocalObjectReference) (w : rt.World)
      → (reconcile_image_pull_secrets mcp platform ns source_ns refs w).0 ≡ ok tt
      → All (IsSynced (reconcile_image_pull_secrets mcp platform ns source_ns refs w).1) refs
  unfolding reconcile_image_pull_secrets
  pull_secrets-IsSynced [] w h = tt
  pull_secrets-IsSynced (ref ∷ refs) w h =
      let sync = sync_secret mcp platform ns source_ns ref in
      let rest = reconcile_image_pull_secrets mcp platform ns source_ns refs in
      let (_, done, step) = bind-ok sync (λ _. rest) w h in
      subst (λ (v : Result rt.Error Unit × rt.World). All (IsSynced v.1) (ref ∷ refs)) (sym step)
        (
          loop-keeps refs ref (sync w).1 (rw step at h) (sync_secret-IsSynced ref w done),
          pull_secrets-IsSynced refs (sync w).1 (rw step at h),
        )

  -- Under the same conditions, whether or not the run succeeds, no object changes on the control plane
  -- but the secrets of the target namespace with a listed name.
  pub pull_secrets_frame :
      (refs : List LocalObjectReference) (w : rt.World) (j : Kind) (b : ObjectKey)
      → All (λ ref. same secrets (target ref.name) j b ≡ false) refs
      → mcp_view (reconcile_image_pull_secrets mcp platform ns source_ns refs w).1 j b
        ≡ mcp_view w j b
  unfolding reconcile_image_pull_secrets
  pull_secrets_frame [] w j b h = refl
  pull_secrets_frame (ref ∷ refs) w j b h =
      let sync = sync_secret mcp platform ns source_ns ref in
      elim (Result-cases (sync w).0) [
        | inl (_, e) ↦
            rw e (pull_secrets_frame refs (sync w).1 j b h.1 ∙ sync_secret_frame ref w j b h.0)
        | inr (f, e) ↦ rw e (sync_secret_frame ref w j b h.0)
      ]
