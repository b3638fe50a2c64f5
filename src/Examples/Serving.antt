-- ===== src/Examples/Serving.antt =====
-- The clients of the in-memory clusters answer.
use service_provider_otel_co.Base.{◌≡◌, refl, ◌∙◌, Option, none, some, ok}
use service_provider_otel_co.Kube.Objects.{ObjectKey}
use service_provider_otel_co.Kube.Client.{Kind, Object, key_of}
use service_provider_otel_co.Kube.Laws.{existing_or, Serves, StoredAt}
use service_provider_otel_co.Examples.Store.{key_eq_refl}
use service_provider_otel_co.Examples.Cluster.{
  missing, World, Site, view_at, client_at, create, update, delete, create_or_update,
}
use service_provider_otel_co.Examples.Lawful.{client_at-answers_get, stored_key}

existing-key :
    (k : Kind) (o : Object k) (x : Option (Object k))
    → StoredAt k (key_of k o) x
    → key_of k (existing_or k x o) ≡ key_of k o
existing-key k o none h = refl
existing-key k o (some old) h = h

set-answers :
    (site : Site) (k : Kind) (a : ObjectKey) (o : Object k) (w : World)
    → key_of k o ≡ a
    → (create_or_update site k a o w).0 ≡ ok tt
unfolding create_or_update
set-answers site k a o w e = rw (e, key_eq_refl a)

pub client_at-Serves : (site : Site) → Serves (client_at site) (view_at site)
unfolding client_at create update delete
client_at-Serves site = record {
  get_present = λ k a w h. client_at-answers_get site k a w h;
  get_absent = λ k a w h. (missing, rw h, refl);
  create_absent = λ k o w h place. rw h;
  update_present = λ k o w h. rw h;
  delete_present = λ k o w h. rw h;
  create_or_update_placed = λ k o f w place keeps. set-answers site k _ _ w (
      keeps (existing_or k (view_at site w k (key_of k o)) o)
      ∙ existing-key k o (view_at site w k (key_of k o)) (stored_key site k (key_of k o) w));
}
