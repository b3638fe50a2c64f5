-- ===== src/Api/DeepCopy/Shape.antt =====
-- What it is for a value in memory to be copied. A `Shape` says what is behind a value: the references
-- one can reach from it, and the value that a reader sees. The shapes of records are put together from those of their fields.
use service_provider_otel_co.Base.{◌≡◌, none, some, List, [], ◌∷◌, ◌++◌, All, All-map, arith}
use service_provider_otel_co.Api.DeepCopy.Heap.{
  Ref, Heap, Memory, read, Below, Fresh, Extends, read-Extends,
}

-- Two heaps agree on the cell of a reference.
abbrev pub Agree : Heap → Heap → Ref → Type 0
Agree g h r = read h r ≡ read g r

-- Reading depends on the cells that are reached, and on no others.
pub record Shape (B V : Type 0) : Type 0 where
  pub reach : Heap → B → List Ref
  pub view : Heap → B → V
  pub local :
      (g h : Heap) (b : B)
      → All (Agree g h) (reach g b)
      → (reach h b ≡ reach g b) × (view h b ≡ view g b)

-- `b'`, made since `g`, is a copy of `b`: a reader sees the same, and no cell behind it was in use.
pub record Copied {B V : Type 0} (S : Shape B V) (g : Heap) (b b' : B) (h : Heap) : Type 0 where
  pub extends : Extends g h
  pub same : S.view h b' ≡ S.view g b
  pub fresh : All (Fresh g.next) (S.reach h b')
  pub below : All (Below h.next) (S.reach h b')

-- The routine copies `b`, on every heap in which all that is behind `b` is in use.
abbrev pub Copies : {B V : Type 0} → Shape B V → (B → Memory B) → B → Type 0
Copies S into b =
    (h : Heap) → All (Below h.next) (S.reach h b) → Copied S h b (into b h).0 (into b h).1

module _ {A : Type 0} (P : A → Type 0) where
  pub All-append : (xs ys : List A) → All P xs → All P ys → All P (xs ++ ys)
  All-append [] ys ps qs = qs
  All-append (x ∷ xs) ys ps qs = (ps.0, All-append xs ys ps.1 qs)

  pub All-parts : (xs ys : List A) → All P (xs ++ ys) → All P xs × All P ys
  All-parts [] ys ps = (tt, ps)
  All-parts (x ∷ xs) ys ps = let (l, r) = All-parts xs ys ps.1 in ((ps.0, l), r)

Below-mono : {h h' : Heap} → Extends h h' → (r : Ref) → Below h.next r → Below h'.next r
Below-mono e none b = tt
Below-mono e (some a) b = let p = e.grows in omega arith

pub Fresh-mono : {h h' : Heap} → Extends h h' → (r : Ref) → Fresh h'.next r → Fresh h.next r
Fresh-mono e none b = tt
Fresh-mono e (some a) b = let p = e.grows in omega arith

-- What is behind a value stays in a later heap.
module _ {B V : Type 0} (S : Shape B V) {h k : Heap} (e : Extends h k) (b : B)
    (below : All (Below h.next) (S.reach h b)) where
  agrees : All (Agree h k) (S.reach h b)
  agrees = All-map (λ r. read-Extends e r) (S.reach h b) below

  pub reach_later : S.reach k b ≡ S.reach h b
  reach_later = (S.local h k b agrees).0

  pub view_later : S.view k b ≡ S.view h b
  view_later = (S.local h k b agrees).1

  pub Below-later : All (Below k.next) (S.reach k b)
  Below-later = rw reach_later (All-map (Below-mono e) (S.reach h b) below)

-- A shape with a routine that copies it.
pub record Copyable (B V : Type 0) : Type 0 where
  pub shape : Shape B V
  pub into : B → Memory B
  pub copies : (b : B) → Copies shape into b
