-- ===== src/Examples/Cluster.antt =====
-- An in-memory installation: the clusters of one control plane, a client for each, and the proof that
-- they meet the laws that the theorems ask for.
use service_provider_otel_co.Base.{
  String, ◌<>◌, ◌≡◌, refl, Bool, true, false, Option, none, some, List, [], ◌∷◌, ◌++◌, Result, ok,
  err, text_eq, if◌then◌else◌,
}
use service_provider_otel_co.Kube.Objects.{
  AccessRequest, ObjectKey, Condition, Namespace, ConfigMap, Secret, Deployment, Service,
}
use service_provider_otel_co.Kube.Client.{
  Runtime, Kind, namespaces, config_maps, secrets, deployments, services, Object, key_of, Client,
}
use service_provider_otel_co.Kube.Laws.{key_eq, same, View, existing_or}
use service_provider_otel_co.Api.Service.{OtelCollectorService}
use service_provider_otel_co.Examples.Store.{find, drop, put, find-put_self, find-put_ne}

pub data Fault : Type 0 where
  missing : Fault
  plain : String → Fault
  wrapped : String → Fault → Fault
  nil_pointer : Fault

abbrev pub is_missing : Fault → Bool
is_missing missing = true
is_missing (plain _) = false
is_missing (wrapped _ e) = is_missing e
is_missing nil_pointer = false

abbrev pub is_nil : Fault → Bool
is_nil nil_pointer = true
is_nil missing = false
is_nil (plain _) = false
is_nil (wrapped _ _) = false

pub record State : Type 0 where
  pub namespace_table : List Namespace
  pub config_map_table : List ConfigMap
  pub secret_table : List Secret
  pub deployment_table : List Deployment
  pub service_table : List Service

abbrev pub table : (k : Kind) → State → List (Object k)
table namespaces s = s.namespace_table
table config_maps s = s.config_map_table
table secrets s = s.secret_table
table deployments s = s.deployment_table
table services s = s.service_table

abbrev pub set_table : (k : Kind) → List (Object k) → State → State
set_table namespaces t s = record s { namespace_table = t }
set_table config_maps t s = record s { config_map_table = t }
set_table secrets t s = record s { secret_table = t }
set_table deployments t s = record s { deployment_table = t }
set_table services t s = record s { service_table = t }

-- `service` is the one object of the onboarding cluster, and `request` its access request.
pub record World : Type 0 where
  pub mcp : State
  pub platform : State
  pub service : Option OtelCollectorService
  pub request : Option AccessRequest

pub data Site : Type 0 where
  mcp_site platform_site : Site

abbrev pub state_at : Site → World → State
state_at mcp_site w = w.mcp
state_at platform_site w = w.platform

abbrev pub set_state : Site → State → World → World
set_state mcp_site s w = record w { mcp = s }
set_state platform_site s w = record w { platform = s }

abbrev pub set_condition : List Condition → Condition → List Condition
set_condition [] c = c ∷ []
set_condition (d ∷ ds) c = if text_eq d.kind c.kind then c ∷ ds else d ∷ set_condition ds c

abbrev pub remove : List String → String → List String
remove [] f = []
remove (g ∷ fs) f = let rest = remove fs f in if text_eq g f then rest else g ∷ rest

abbrev pub runtime : Runtime
runtime = record {
  Error = Fault;
  World = World;
  is_not_found = is_missing;
  new = plain;
  wrap = wrapped;
  quote = λ s. "\"" <> (s <> "\"");
  set_status_condition = set_condition;
  add_finalizer = λ fs f. remove fs f ++ f ∷ [];
  remove_finalizer = remove;
  Cluster = Site;
  nil_pointer = Fault.nil_pointer;
  is_panic = is_nil;
  sha256_sum = λ bytes. bytes;
}

abbrev pub view_at : Site → View runtime
view_at site w k a = find (key_of k) a (table k (state_at site w))

module _ (site : Site) where
  abbrev pub store : (k : Kind) → List (Object k) → World → World
  store k t w = set_state site (set_table k t (state_at site w)) w

  abbrev pub rows : (k : Kind) → World → List (Object k)
  rows k w = table k (state_at site w)

  abbrev pub or_missing : {A : Type 0} → Option A → Result Fault A
  or_missing none = err missing
  or_missing (some a) = ok a

  unfoldable pub create :
      (k : Kind) → Object k → Option (Object k) → World → Result Fault (Unit {0}) × World
  create k o (some _) w = (err (plain "already exists"), w)
  create k o none w = (ok tt, store k (put (key_of k) o (rows k w)) w)

  unfoldable pub update :
      (k : Kind) → Object k → Option (Object k) → World → Result Fault (Unit {0}) × World
  update k o none w = (err missing, w)
  update k o (some _) w = (ok tt, store k (put (key_of k) o (rows k w)) w)

  unfoldable pub delete :
      (k : Kind) → Object k → Option (Object k) → World → Result Fault (Unit {0}) × World
  delete k o none w = (err missing, w)
  delete k o (some _) w = (ok tt, store k (drop (key_of k) (key_of k o) (rows k w)) w)

  -- Setting the desired state may not rename the object.
  unfoldable pub create_or_update :
      (k : Kind) → ObjectKey → Object k → World → Result Fault (Unit {0}) × World
  create_or_update k a o w =
      if key_eq (key_of k o) a
      then (ok tt, store k (put (key_of k) o (rows k w)) w)
      else (err (plain "renamed"), w)

  unfoldable pub client_at : Client runtime
  unfolding create update delete create_or_update
  client_at = record {
    get = λ k a w. (or_missing (view_at site w k a), w);
    create = λ k o w. create k o (view_at site w k (key_of k o)) w;
    update = λ k o w. update k o (view_at site w k (key_of k o)) w;
    delete = λ k o w. delete k o (view_at site w k (key_of k o)) w;
    create_or_update = λ k o f w.
        create_or_update k (key_of k o) (f (existing_or k (view_at site w k (key_of k o)) o)) w;
  }

pub rows-store_self :
    (site : Site) (k : Kind) (t : List (Object k)) (w : World) → rows site k (store site k t w) ≡ t
rows-store_self mcp_site namespaces t w = refl
rows-store_self mcp_site config_maps t w = refl
rows-store_self mcp_site secrets t w = refl
rows-store_self mcp_site deployments t w = refl
rows-store_self mcp_site services t w = refl
rows-store_self platform_site namespaces t w = refl
rows-store_self platform_site config_maps t w = refl
rows-store_self platform_site secrets t w = refl
rows-store_self platform_site deployments t w = refl
rows-store_self platform_site services t w = refl

-- A write that keeps the rows of all other keys keeps the view of all other references.
pub view-store :
    (site : Site) (k : Kind) (a : ObjectKey) (t : List (Object k)) (w : World)
    → ((b : ObjectKey)
        → key_eq a b ≡ false
        → find (key_of k) b t ≡ find (key_of k) b (rows site k w))
    → (j : Kind) (b : ObjectKey) → same k a j b ≡ false
    → view_at site (store site k t w) j b ≡ view_at site w j b
view-store mcp_site namespaces a t w keep namespaces b h = keep b h
view-store mcp_site config_maps a t w keep config_maps b h = keep b h
view-store mcp_site secrets a t w keep secrets b h = keep b h
view-store mcp_site deployments a t w keep deployments b h = keep b h
view-store mcp_site services a t w keep services b h = keep b h
view-store platform_site namespaces a t w keep namespaces b h = keep b h
view-store platform_site config_maps a t w keep config_maps b h = keep b h
view-store platform_site secrets a t w keep secrets b h = keep b h
view-store platform_site deployments a t w keep deployments b h = keep b h
view-store platform_site services a t w keep services b h = keep b h
view-store mcp_site _ a t w keep _ b h = refl
view-store platform_site _ a t w keep _ b h = refl

module _ (site : Site) where
  pub view-put_self :
      (k : Kind) (o : Object k) (w : World)
      → view_at site (store site k (put (key_of k) o (rows site k w)) w) k (key_of k o) ≡ some o
  view-put_self k o w = rw rows-store_self (find-put_self (key_of k) o (rows site k w))

  pub view-put_frame :
      (k : Kind) (o : Object k) (w : World) (j : Kind) (b : ObjectKey)
      → same k (key_of k o) j b ≡ false
      → view_at site (store site k (put (key_of k) o (rows site k w)) w) j b ≡ view_at site w j b
  view-put_frame k o w =
      view-store site k (key_of k o) _ w (λ b h. find-put_ne (key_of k) o b (rows site k w) h)
