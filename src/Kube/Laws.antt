-- ===== src/Kube/Laws.antt =====
-- What the program relies on of a client: the documented behaviour of the Kubernetes API, for one
-- client at a time. `view` is what the cluster stores.
use service_provider_otel_co.Base.{
  ◌≡◌, ◌⊎◌, Bool, true, false, ◌&&◌, Option, none, some, Result, ok, err, text_eq,
}
use service_provider_otel_co.Kube.Objects.{ObjectKey, Namespace}
use service_provider_otel_co.Kube.Client.{
  Runtime, Kind, namespaces, config_maps, secrets, deployments, services, Object, key_of, Client,
}

abbrev pub kind_eq : Kind → Kind → Bool
kind_eq namespaces namespaces = true
kind_eq config_maps config_maps = true
kind_eq secrets secrets = true
kind_eq deployments deployments = true
kind_eq services services = true
kind_eq _ _ = false

abbrev pub key_eq : ObjectKey → ObjectKey → Bool
key_eq a b = text_eq a.namespace b.namespace && text_eq a.name b.name

abbrev pub same : Kind → ObjectKey → Kind → ObjectKey → Bool
same k a j b = kind_eq k j && key_eq a b

abbrev pub View : Runtime → Type 0
View rt = rt.World → (k : Kind) → ObjectKey → Option (Object k)

-- What `CreateOrUpdate` sets the desired state on: the stored object, or the one it is given.
abbrev pub existing_or : (k : Kind) → Option (Object k) → Object k → Object k
existing_or _ none o = o
existing_or _ (some old) o = old

-- What is stored under a key is an object of that key.
abbrev pub StoredAt : (k : Kind) → ObjectKey → Option (Object k) → Type 0
StoredAt k a none = Unit
StoredAt k a (some o) = key_of k o ≡ a

-- A read that returns an object returns the stored one; one that finds nothing says so.
abbrev pub Reads : {A : Type 0} (rt : Runtime) → Result rt.Error A → Option A → Type 0
Reads rt (ok o) stored = stored ≡ some o
Reads rt (err e) stored = rt.is_not_found e ≡ true → stored ≡ none

-- After a deletion that succeeds, or that finds nothing, nothing is stored.
abbrev pub Removes : {A : Type 0} (rt : Runtime) → Result rt.Error (Unit {0}) → Option A → Type 0
Removes rt (ok _) stored = stored ≡ none
Removes rt (err e) stored = rt.is_not_found e ≡ true → stored ≡ none

-- Calls may fail at any time; these laws speak of what a reply means, and of what a call leaves
-- alone. `same k a j b ≡ false` says that two references differ.
pub record IsLawful {rt : Runtime} (c : Client rt) (view : View rt) : Type 0 where
  pub stored_key : (k : Kind) (a : ObjectKey) (w : rt.World) → StoredAt k a (view w k a)
  pub get_reads : (k : Kind) (a : ObjectKey) (w : rt.World) → Reads rt (c.get k a w).0 (view w k a)
  pub get_frame :
      (k : Kind) (a : ObjectKey) (w : rt.World) (j : Kind) (b : ObjectKey)
      → view (c.get k a w).1 j b ≡ view w j b
  pub create-ok :
      (k : Kind) (o : Object k) (w : rt.World)
      → (c.create k o w).0 ≡ ok tt
      → view (c.create k o w).1 k (key_of k o) ≡ some o
  pub create_frame :
      (k : Kind) (o : Object k) (w : rt.World) (j : Kind) (b : ObjectKey)
      → same k (key_of k o) j b ≡ false
      → view (c.create k o w).1 j b ≡ view w j b
  pub update-ok :
      (k : Kind) (o : Object k) (w : rt.World)
      → (c.update k o w).0 ≡ ok tt
      → view (c.update k o w).1 k (key_of k o) ≡ some o
  pub update_frame :
      (k : Kind) (o : Object k) (w : rt.World) (j : Kind) (b : ObjectKey)
      → same k (key_of k o) j b ≡ false
      → view (c.update k o w).1 j b ≡ view w j b
  pub delete_removes :
      (k : Kind) (o : Object k) (w : rt.World)
      → Removes rt (c.delete k o w).0 (view (c.delete k o w).1 k (key_of k o))
  pub delete_frame :
      (k : Kind) (o : Object k) (w : rt.World) (j : Kind) (b : ObjectKey)
      → same k (key_of k o) j b ≡ false
      → view (c.delete k o w).1 j b ≡ view w j b
  pub create_or_update-ok :
      (k : Kind) (o : Object k) (f : Object k → Object k) (w : rt.World)
      → (c.create_or_update k o f w).0 ≡ ok tt
      → view (c.create_or_update k o f w).1 k (key_of k o)
        ≡ some (f (existing_or k (view w k (key_of k o)) o))
  pub create_or_update_frame :
      (k : Kind) (o : Object k) (f : Object k → Object k) (w : rt.World) (j : Kind) (b : ObjectKey)
      → same k (key_of k o) j b ≡ false
      → view (c.create_or_update k o f w).1 j b ≡ view w j b

abbrev pub namespace_key : ObjectKey → ObjectKey
namespace_key a = record { namespace = ""; name = a.namespace }

-- The object may stand in the cluster: a namespace itself, or an object of a namespace that exists.
abbrev pub HasPlace : (rt : Runtime) → View rt → rt.World → Kind → ObjectKey → Type 0
HasPlace rt view w k a =
    (k ≡ namespaces) ⊎ ((n : Namespace) × (view w namespaces (namespace_key a) ≡ some n))

-- A cluster that answers: a request that can be met is met.
pub record Serves {rt : Runtime} (c : Client rt) (view : View rt) : Type 0 where
  pub get_present :
      (k : Kind) (a : ObjectKey) (w : rt.World) {o : Object k}
      → view w k a ≡ some o
      → (c.get k a w).0 ≡ ok o
  pub get_absent :
      (k : Kind) (a : ObjectKey) (w : rt.World)
      → view w k a ≡ none
      → (e : rt.Error) × ((c.get k a w).0 ≡ err e) × (rt.is_not_found e ≡ true)
  pub create_absent :
      (k : Kind) (o : Object k) (w : rt.World)
      → view w k (key_of k o) ≡ none
      → HasPlace rt view w k (key_of k o)
      → (c.create k o w).0 ≡ ok tt
  pub update_present :
      (k : Kind) (o : Object k) (w : rt.World) {old : Object k}
      → view w k (key_of k o) ≡ some old
      → (c.update k o w).0 ≡ ok tt
  pub delete_present :
      (k : Kind) (o : Object k) (w : rt.World) {old : Object k}
      → view w k (key_of k o) ≡ some old
      → (c.delete k o w).0 ≡ ok tt
  pub create_or_update_placed :
      (k : Kind) (o : Object k) (f : Object k → Object k) (w : rt.World)
      → HasPlace rt view w k (key_of k o)
      → ((x : Object k) → key_of k (f x) ≡ key_of k x)
      → (c.create_or_update k o f w).0 ≡ ok tt

-- The client works on another cluster than the one that `view` shows.
pub record Ignores {rt : Runtime} (c : Client rt) (view : View rt) : Type 0 where
  pub ignores_get :
      (k : Kind) (a : ObjectKey) (w : rt.World) (j : Kind) (b : ObjectKey)
      → view (c.get k a w).1 j b ≡ view w j b
  pub ignores_create :
      (k : Kind) (o : Object k) (w : rt.World) (j : Kind) (b : ObjectKey)
      → view (c.create k o w).1 j b ≡ view w j b
  pub ignores_update :
      (k : Kind) (o : Object k) (w : rt.World) (j : Kind) (b : ObjectKey)
      → view (c.update k o w).1 j b ≡ view w j b
  pub ignores_delete :
      (k : Kind) (o : Object k) (w : rt.World) (j : Kind) (b : ObjectKey)
      → view (c.delete k o w).1 j b ≡ view w j b
  pub ignores_create_or_update :
      (k : Kind) (o : Object k) (f : Object k → Object k) (w : rt.World) (j : Kind) (b : ObjectKey)
      → view (c.create_or_update k o f w).1 j b ≡ view w j b
