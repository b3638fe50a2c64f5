-- ===== src/Api/DeepCopy/Heap.antt =====
-- Memory as Go's programs see it: cells at addresses, and references that may be nil. A cell of a type of
-- another library stands for all that is behind it, which that library's DeepCopyInto copies.
use service_provider_otel_co.Base.{
  ℕ, suc, ◌≤◌, ◌<◌, ◌≡◌, refl, ◌∙◌, Bool, true, false, String, Option, none, some, List, ℤ, pos,
  arith, ltb, if◌then◌else◌,
}
use service_provider_otel_co.Kube.Objects.{
  Condition, ObjectKey, LocalObjectReference, ResourceRequirements, GroupVersionKind, no_kind,
}

-- A pointer or a slice; `none` is nil.
abbrev pub Ref : Type 0
Ref = Option ℕ

-- The objects in memory, as Go lays them out: the fields that are pointers or slices are references.
pub record SpecRef : Type 0 where
  pub collector_image : Ref
  pub collector_version : Ref
  pub resources : Ref
  pub namespace : Ref

pub record StatusRef : Type 0 where
  pub conditions : Ref
  pub observed_generation : ℤ
  pub phase : String

-- metav1.ObjectMeta, with the fields of `ObjectMeta`
pub record MetaRef : Type 0 where
  pub key : ObjectKey
  pub generation : ℤ
  pub finalizers : Ref
  pub deletion_timestamp : Ref

pub record ServiceRef : Type 0 where
  pub type_meta : GroupVersionKind
  pub metadata : MetaRef
  pub spec : SpecRef
  pub status : StatusRef

pub record ConfigSpecRef : Type 0 where
  pub poll_interval : Ref
  pub default_image : Ref
  pub default_version : Ref
  pub image_pull_secrets : Ref
  pub default_resources : Ref
  pub default_namespace : Ref

pub record ConfigStatusRef : Type 0 where
  pub conditions : Ref

pub record ConfigRef : Type 0 where
  pub type_meta : GroupVersionKind
  pub metadata : MetaRef
  pub spec : ConfigSpecRef
  pub status : ConfigStatusRef

-- metav1.ListMeta
pub record ListMetaRef : Type 0 where
  pub resource_version : String
  pub continue_token : String
  pub remaining_item_count : Ref

-- OtelCollectorServiceList and ProviderConfigList
pub record ListRef : Type 0 where
  pub type_meta : GroupVersionKind
  pub metadata : ListMetaRef
  pub items : Ref

abbrev pub zero_meta : MetaRef
zero_meta = record {
  key = record { namespace = ""; name = "" };
  generation = pos 0;
  finalizers = none;
  deletion_timestamp = none;
}

abbrev pub zero_list : ListRef
zero_list = record {
  type_meta = no_kind;
  metadata = record { resource_version = ""; continue_token = ""; remaining_item_count = none };
  items = none;
}

pub data Cell : Type 0 where
  text : String → Cell
  names : List String → Cell
  time : ℕ → Cell
  count : ℤ → Cell
  duration : ℤ → Cell
  quantities : ResourceRequirements → Cell
  conditions : List Condition → Cell
  references : List LocalObjectReference → Cell
  service_spec : SpecRef → Cell
  service_status : StatusRef → Cell
  service : ServiceRef → Cell
  services : List ServiceRef → Cell
  service_list : ListRef → Cell
  config_spec : ConfigSpecRef → Cell
  config_status : ConfigStatusRef → Cell
  config : ConfigRef → Cell
  configs : List ConfigRef → Cell
  config_list : ListRef → Cell

-- The cells below `next` are in use.
pub record Heap : Type 0 where
  pub next : ℕ
  pub cell : ℕ → Cell

abbrev pub Memory : Type 0 → Type 0
Memory A = Heap → A × Heap

abbrev pub give : {A : Type 0} → A → Memory A
give a h = (a, h)

infixl 5 ◌>>=◌ ◌>>◌
abbrev pub ◌>>=◌ : {A B : Type 0} → Memory A → (A → Memory B) → Memory B
◌>>=◌ m f h = let (a, h') = m h in f a h'

abbrev pub ◌>>◌ : {A B : Type 0} → Memory A → Memory B → Memory B
m >> k = m >>= λ _. k

-- `write` changes one cell.
abbrev pub same_address : ℕ → ℕ → Bool
same_address a b = if ltb a b then false else if ltb b a then false else true

unfoldable pub write : ℕ → Cell → Heap → Heap
write a c h = record h { cell = λ b. if same_address a b then c else h.cell b }

abbrev pub store : ℕ → Cell → Memory Unit
store a c h = (tt, write a c h)

abbrev pub load : ℕ → Memory Cell
load a h = (h.cell a, h)

-- `new` and `make`
unfoldable pub alloc : Cell → Memory ℕ
unfolding write
alloc c h = (h.next, write h.next c (record h { next = suc h.next }))

abbrev pub read : Heap → Ref → Option Cell
read h none = none
read h (some a) = some (h.cell a)

-- All cells of a reference are in use; or none was in use before `n`.
abbrev pub Below : ℕ → Ref → Type 0
Below n none = Unit
Below n (some a) = a < n

abbrev pub Fresh : ℕ → Ref → Type 0
Fresh n none = Unit
Fresh n (some a) = n ≤ a

-- A later heap: what was in use is as it was.
pub record Extends (h h' : Heap) : Type 0 where
  pub grows : h.next ≤ h'.next
  pub keeps : (a : ℕ) → a < h.next → h'.cell a ≡ h.cell a

pub Extends-refl : (h : Heap) → Extends h h
Extends-refl h = record { grows = omega arith; keeps = λ a lt. refl }

pub Extends-trans : {g h k : Heap} → Extends g h → Extends h k → Extends g k
Extends-trans e f = record {
  grows = omega arith;
  keeps = λ a lt. f.keeps a (omega arith) ∙ e.keeps a lt;
}

pub read-Extends : {h h' : Heap} → Extends h h' → (r : Ref) → Below h.next r → read h' r ≡ read h r
read-Extends e none b = refl
read-Extends e (some a) b = rw (e.keeps a b)

pub write_other :
    (a b : ℕ) (c : Cell) (h : Heap) → (same_address a b ≡ false) → (write a c h).cell b ≡ h.cell b
unfolding write
write_other a b c h e = rw e

pub alloc-Extends : (c : Cell) (h : Heap) → Extends h (alloc c h).1
unfolding alloc
alloc-Extends c h = record { grows = omega arith; keeps = λ a lt. ground arith }

pub alloc_cell : (c : Cell) (h : Heap) → (alloc c h).1.cell h.next ≡ c
unfolding alloc
alloc_cell c h = ground arith

pub write_cell : (a : ℕ) (c : Cell) (h : Heap) → (write a c h).cell a ≡ c
unfolding write
write_cell a c h = ground arith

-- A write to a cell that an earlier heap did not use keeps what was in that heap, and all that was made later.
pub write-Extends :
    {g h : Heap} (a : ℕ) (c : Cell) → Extends g h → g.next ≤ a → Extends g (write a c h)
unfolding write
write-Extends a c e le = record {
  grows = e.grows;
  keeps = λ b lt. let k = e.keeps b lt in ground (arith, k);
}

pub read-write :
    (a : ℕ) (c : Cell) (h : Heap) (r : Ref) → Fresh (suc a) r → read (write a c h) r ≡ read h r
unfolding write
read-write a c h none f = refl
read-write a c h (some b) f = ground arith

pub alloc_address : (c : Cell) (h : Heap) → (alloc c h).0 ≡ h.next
unfolding alloc
alloc_address c h = refl

pub alloc_next : (c : Cell) (h : Heap) → (alloc c h).1.next ≡ suc h.next
unfolding alloc write
alloc_next c h = refl

pub write_next : (a : ℕ) (c : Cell) (h : Heap) → (write a c h).next ≡ h.next
unfolding write
write_next a c h = refl
