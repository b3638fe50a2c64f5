-- ===== src/Resources/PullSecrets/Synced/Stable.antt =====
-- A second ReconcileImagePullSecrets changes nothing.
use service_provider_otel_co.Base.{
  String, ◌≡◌, refl, ◌∙◌, sym, ap, true, some, is_some, List, [], ◌∷◌, All, All-map, arith, Result,
  ok, err, Result-cases, inl, inr, bind-ok,
}
use service_provider_otel_co.Kube.Objects.{ObjectKey, Secret, LocalObjectReference}
use service_provider_otel_co.Kube.Client.{Runtime, Kind, secrets, Client}
use service_provider_otel_co.Kube.Laws.{same, View, IsLawful, Ignores, Reads, StoredAt}
use service_provider_otel_co.Kube.Changes.{Unchanged, Unchanged-at}
use service_provider_otel_co.Resources.PullSecrets.{
  sync_secret, write_secret, reconcile_image_pull_secrets,
}
use service_provider_otel_co.Resources.PullSecrets.Synced.{
  data_of, IsSynced, sync_secret_frame, sync_secret_platform,
}

module _ {rt : Runtime} {mcp platform : Client rt} {mcp_view platform_view : View rt}
    (L : IsLawful mcp mcp_view) (P : IsLawful platform platform_view)
    (apart : Ignores mcp platform_view)
    (only_read : (k : Kind) (a : ObjectKey) (w : rt.World) (j : Kind) (b : ObjectKey)
      → mcp_view (platform.get k a w).1 j b ≡ mcp_view w j b)
    (ns source_ns : String) where
  abbrev target : String → ObjectKey
  target name = record { namespace = ns; name = name }

  abbrev source : String → ObjectKey
  source name = record { namespace = source_ns; name = name }

  -- A target secret with the source's data is written as it is.
  write_secret_same :
      (name : String) (src found : Secret) (w : rt.World)
      → found.key ≡ target name
      → mcp_view w secrets (target name) ≡ some found
      → found.data_map ≡ src.data_map
      → (mcp.update secrets (record found { data_map = src.data_map }) w).0 ≡ ok tt
      → mcp_view
          (mcp.update secrets (record found { data_map = src.data_map }) w).1
          secrets
          (target name)
        ≡ mcp_view w secrets (target name)
  write_secret_same name src found w key stored same_data h =
      let o : Secret = record found { data_map = src.data_map } in
      let unchanged : o ≡ found = λ i. record {
        key = found.key;
        kind = found.kind;
        labels = found.labels;
        data_map = sym same_data i;
      } in
      (rw (← key) (L.update-ok secrets o w h)) ∙ ap some unchanged ∙ sym stored

  write_secret_stable :
      (name : String) (src : Secret) (r : Result rt.Error Secret) (w : rt.World)
      → Reads rt r (mcp_view w secrets (target name))
      → StoredAt secrets (target name) (mcp_view w secrets (target name))
      → is_some (mcp_view w secrets (target name)) ≡ true
      → data_of (mcp_view w secrets (target name)) ≡ some src.data_map
      → (write_secret mcp platform ns source_ns name src r w).0 ≡ ok tt
      → mcp_view (write_secret mcp platform ns source_ns name src r w).1 secrets (target name)
        ≡ mcp_view w secrets (target name)
  unfolding write_secret
  write_secret_stable name src (err e) w reads key present copied h = ground arith
  write_secret_stable name src (ok found) w reads key present copied h =
      write_secret_same name src found w (rw reads at key) reads
        (ground (arith, rw reads at copied)) (ground arith)

  copy_stable :
      (name : String) (src : Secret) (w : rt.World)
      → is_some (mcp_view w secrets (target name)) ≡ true
      → data_of (mcp_view w secrets (target name)) ≡ some src.data_map
      → let read = mcp.get secrets (target name) w in
        (write_secret mcp platform ns source_ns name src read.0 read.1).0 ≡ ok tt
        → mcp_view
            (write_secret mcp platform ns source_ns name src read.0 read.1).1
            secrets
            (target name)
          ≡ mcp_view w secrets (target name)
  copy_stable name src w present copied h =
      let (r, w') = mcp.get secrets (target name) w in
      let read_only = L.get_frame secrets (target name) w secrets (target name) in
      write_secret_stable name src r w' (rw read_only (L.get_reads secrets (target name) w))
        (L.stored_key secrets (target name) w') (rw read_only present) (rw read_only copied) h
      ∙ read_only

  sync_secret_same :
      (ref : LocalObjectReference) (w : rt.World)
      → IsSynced L P apart only_read ns source_ns w ref
      → (sync_secret mcp platform ns source_ns ref w).0 ≡ ok tt
      → mcp_view (sync_secret mcp platform ns source_ns ref w).1 secrets (target ref.name)
        ≡ mcp_view w secrets (target ref.name)
  unfolding sync_secret
  sync_secret_same ref w s h = elim (Result-cases (platform.get secrets (source ref.name) w).0) [
    | inl (src, e) ↦
        let w₁ : rt.World = (platform.get secrets (source ref.name) w).1 in
        let read_only = only_read secrets (source ref.name) w secrets (target ref.name) in
        let from : platform_view w secrets (source ref.name) ≡ some src =
          rw e at (P.get_reads secrets (source ref.name) w) in
        rw e (
          copy_stable ref.name src w₁ (rw read_only s.present)
            (rw read_only (s.copied ∙ ap data_of from)) (rw e at h)
          ∙ read_only)
    | inr (f, e) ↦ cc (e, h)
  ]

  sync_secret_stable :
      (ref : LocalObjectReference) (w : rt.World)
      → IsSynced L P apart only_read ns source_ns w ref
      → (sync_secret mcp platform ns source_ns ref w).0 ≡ ok tt
      → Unchanged rt mcp_view w (sync_secret mcp platform ns source_ns ref w).1
  sync_secret_stable ref w s h =
      Unchanged-at rt mcp_view w (sync_secret mcp platform ns source_ns ref w).1 secrets
        (target ref.name) (sync_secret_same ref w s h)
        (sync_secret_frame L P apart only_read ns source_ns ref w)

  -- Secrets in step stay so while the control plane and the platform's secrets stay as they are.
  IsSynced-Unchanged :
      (ref : LocalObjectReference) (w : rt.World)
      → Unchanged rt mcp_view w (sync_secret mcp platform ns source_ns ref w).1
      → (other : LocalObjectReference) → IsSynced L P apart only_read ns source_ns w other
      → IsSynced L P apart only_read ns source_ns
          (sync_secret mcp platform ns source_ns ref w).1
          other
  IsSynced-Unchanged ref w same other s =
      let mcp_same = same secrets (target other.name) in
      record {
        present = rw mcp_same s.present;
        copied =
            rw
              (
                mcp_same,
                sync_secret_platform L P apart only_read ns source_ns ref w (source other.name),
              )
              s.copied;
      }

  -- Where all listed secrets are in step, a run without an error changes nothing on the control plane.
  pub pull_secrets_stable :
      (refs : List LocalObjectReference) (w : rt.World)
      → All (IsSynced L P apart only_read ns source_ns w) refs
      → (reconcile_image_pull_secrets mcp platform ns source_ns refs w).0 ≡ ok tt
      → Unchanged rt mcp_view w (reconcile_image_pull_secrets mcp platform ns source_ns refs w).1
  unfolding reconcile_image_pull_secrets
  pull_secrets_stable [] w s h = λ j b. refl
  pull_secrets_stable (ref ∷ refs) w s h =
      let sync = sync_secret mcp platform ns source_ns ref in
      let rest = reconcile_image_pull_secrets mcp platform ns source_ns refs in
      let (_, done, step) = bind-ok sync (λ _. rest) w h in
      let same = sync_secret_stable ref w s.0 done in
      let still = All-map (IsSynced-Unchanged ref w same) refs s.1 in
      rw step (λ j b. pull_secrets_stable refs (sync w).1 still (rw step at h) j b ∙ same j b)
