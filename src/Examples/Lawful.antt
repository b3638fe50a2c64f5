-- ===== src/Examples/Lawful.antt =====
-- The clients of the in-memory clusters meet the laws.
use service_provider_otel_co.Base.{
  ◌≡◌, refl, inl, inr, false, Option, none, some, List, arith, ok, Bool-cases,
}
use mathlib.Core.Path.{subst}
use service_provider_otel_co.Kube.Objects.{ObjectKey}
use service_provider_otel_co.Kube.Client.{
  Kind, namespaces, config_maps, secrets, deployments, services, Object, key_of, Client,
}
use service_provider_otel_co.Kube.Laws.{key_eq, same, IsLawful, Removes, StoredAt, Ignores}
use service_provider_otel_co.Kube.Changes.{key_eq→eq}
use service_provider_otel_co.Examples.Store.{
  put, drop, find-drop_self, find-drop_ne, find-IsAt, IsAt,
}
use service_provider_otel_co.Examples.Cluster.{
  mcp_site, platform_site, World, Site, runtime, view_at, rows, store, rows-store_self, view-store,
  view-put_self, view-put_frame, client_at, create, update, delete, create_or_update,
}

module _ (site : Site) where
  abbrev c : Client runtime
  c = client_at site

  module _ (k : Kind) (o : Object k) (w : World) where
    create-ok :
        (x : Option (Object k))
        → (create site k o x w).0 ≡ ok tt
        → view_at site (create site k o x w).1 k (key_of k o) ≡ some o
    unfolding create
    create-ok none h = view-put_self site k o w
    create-ok (some old) h = cc

    create_frame :
        (x : Option (Object k)) (j : Kind) (b : ObjectKey)
        → same k (key_of k o) j b ≡ false
        → view_at site (create site k o x w).1 j b ≡ view_at site w j b
    unfolding create
    create_frame none j b h = view-put_frame site k o w j b h
    create_frame (some old) j b h = refl

    update-ok :
        (x : Option (Object k))
        → (update site k o x w).0 ≡ ok tt
        → view_at site (update site k o x w).1 k (key_of k o) ≡ some o
    unfolding update
    update-ok (some old) h = view-put_self site k o w
    update-ok none h = cc

    update_frame :
        (x : Option (Object k)) (j : Kind) (b : ObjectKey)
        → same k (key_of k o) j b ≡ false
        → view_at site (update site k o x w).1 j b ≡ view_at site w j b
    unfolding update
    update_frame (some old) j b h = view-put_frame site k o w j b h
    update_frame none j b h = refl

    delete-Removes :
        (x : Option (Object k))
        → view_at site w k (key_of k o) ≡ x
        → Removes runtime
            (delete site k o x w).0
            (view_at site (delete site k o x w).1 k (key_of k o))
    unfolding delete
    delete-Removes (some old) v =
        rw rows-store_self (find-drop_self (key_of k) (key_of k o) (rows site k w))
    delete-Removes none v = λ _. v

    delete_frame :
        (x : Option (Object k)) (j : Kind) (b : ObjectKey)
        → same k (key_of k o) j b ≡ false
        → view_at site (delete site k o x w).1 j b ≡ view_at site w j b
    unfolding delete
    delete_frame (some old) j b h =
        view-store site k (key_of k o) _ w
          (λ a ne. find-drop_ne (key_of k) (key_of k o) a (rows site k w) ne) j b h
    delete_frame none j b h = refl

    set-ok :
        (a : ObjectKey)
        → (create_or_update site k a o w).0 ≡ ok tt
        → view_at site (create_or_update site k a o w).1 k a ≡ some o
    unfolding create_or_update
    set-ok a h = elim (Bool-cases (key_eq (key_of k o) a)) [
      | inl e ↦ rw e (
          subst
            (λ (b : ObjectKey).
              view_at site (store site k (put (key_of k) o (rows site k w)) w) k b ≡ some o)
            (key_eq→eq (key_of k o) a e) (view-put_self site k o w))
      | inr e ↦ absurd (ground (arith, e, h))
    ]

    set_frame :
        (a : ObjectKey) (j : Kind) (b : ObjectKey)
        → same k a j b ≡ false
        → view_at site (create_or_update site k a o w).1 j b ≡ view_at site w j b
    unfolding create_or_update
    set_frame a j b h = elim (Bool-cases (key_eq (key_of k o) a)) [
      | inl e ↦ rw e (view-put_frame site k o w j b (rw (key_eq→eq (key_of k o) a e) h))
      | inr e ↦ rw e
    ]

  pub stored_key : (k : Kind) (a : ObjectKey) (w : World) → StoredAt k a (view_at site w k a)
  stored_key k a w = go (view_at site w k a) (find-IsAt (key_of k) a (rows site k w))
    where
      go : (x : Option (Object k)) → IsAt (key_of k) a x → StoredAt k a x
      go none h = h
      go (some o) h = h

  pub client_at-IsLawful : IsLawful c (view_at site)
  unfolding client_at
  client_at-IsLawful = record {
    stored_key = stored_key;
    get_reads = λ k a w. ground arith;
    get_frame = λ k a w j b. refl;
    create-ok = λ k o w. create-ok k o w _;
    create_frame = λ k o w. create_frame k o w _;
    update-ok = λ k o w. update-ok k o w _;
    update_frame = λ k o w. update_frame k o w _;
    delete_removes = λ k o w. delete-Removes k o w _ refl;
    delete_frame = λ k o w. delete_frame k o w _;
    create_or_update-ok = λ k o f w. set-ok k _ w _;
    create_or_update_frame = λ k o f w. set_frame k _ w _;
  }

  -- Setting the desired state never renames in this program; the fake cluster refuses it.
  pub client_at-answers_get :
      (k : Kind) (a : ObjectKey) (w : World) {o : Object k}
      → view_at site w k a ≡ some o
      → (c.get k a w).0 ≡ ok o
  unfolding client_at
  client_at-answers_get k a w h = ground (arith, h)

-- The two clusters are apart.
view-store_apart :
    (k : Kind) (t : List (Object k)) (w : World) (j : Kind) (b : ObjectKey)
    → view_at platform_site (store mcp_site k t w) j b ≡ view_at platform_site w j b
view-store_apart namespaces t w j b = refl
view-store_apart config_maps t w j b = refl
view-store_apart secrets t w j b = refl
view-store_apart deployments t w j b = refl
view-store_apart services t w j b = refl

apart_set :
    (k : Kind) (a : ObjectKey) (o : Object k) (w : World) (j : Kind) (b : ObjectKey)
    → view_at platform_site (create_or_update mcp_site k a o w).1 j b ≡ view_at platform_site w j b
unfolding create_or_update
apart_set k a o w j b =
    ground (arith, view-store_apart k (put (key_of k) o (rows mcp_site k w)) w j b)

pub mcp-Ignores_platform : Ignores (client_at mcp_site) (view_at platform_site)
unfolding client_at create update delete create_or_update
mcp-Ignores_platform = record {
  ignores_get = λ k a w j b. refl;
  ignores_create =
      λ k o w j b. ground (arith, view-store_apart k (put (key_of k) o (rows mcp_site k w)) w j b);
  ignores_update =
      λ k o w j b. ground (arith, view-store_apart k (put (key_of k) o (rows mcp_site k w)) w j b);
  ignores_delete = λ k o w j b.
      ground (arith, view-store_apart k (drop (key_of k) (key_of k o) (rows mcp_site k w)) w j b);
  ignores_create_or_update = λ k o f w j b. apart_set k _ _ w j b;
}

-- The platform cluster is only read.
pub platform-get_frame :
    (k : Kind) (a : ObjectKey) (w : World) (j : Kind) (b : ObjectKey)
    → view_at mcp_site ((client_at platform_site).get k a w).1 j b ≡ view_at mcp_site w j b
unfolding client_at
platform-get_frame k a w j b = refl
