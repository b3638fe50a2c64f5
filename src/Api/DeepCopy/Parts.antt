-- ===== src/Api/DeepCopy/Parts.antt =====
-- The shapes from which those of the API's types are put together, each with the routine that copies it.
use service_provider_otel_co.Base.{
  ◌≡◌, refl, ap, Option, none, some, List, [], ◌∷◌, ◌++◌, map, All, All-map, arith,
}
use service_provider_otel_co.Api.DeepCopy.Heap.{
  Ref, Cell, Heap, Memory, give, ◌>>=◌, load, alloc, read, Below, Fresh, Extends-refl,
  Extends-trans, alloc-Extends, alloc_cell,
}
use service_provider_otel_co.Api.DeepCopy.Shape.{
  Agree, Shape, Copies, Copyable, All-append, All-parts, reach_later, view_later, Below-later,
  Fresh-mono,
}

-- a field that holds no reference, or a type of another library, which that library copies
abbrev pub plain : (A : Type 0) → Shape A A
plain A = record { reach = λ h a. []; view = λ h a. a; local = λ g h a ag. (refl, refl) }

pub plain-Copies : (A : Type 0) (a : A) → Copies (plain A) give a
plain-Copies A a h below = record { extends = Extends-refl h; same = refl; fresh = tt; below = tt }

-- a field that points to such a value
abbrev pub cell_shape : Shape Ref (Option Cell)
cell_shape = record { reach = λ h r. r ∷ []; view = read; local = λ g h r ag. (refl, ag.0) }

-- `new`, and the assignment of what `in` points to; or nothing for nil
unfoldable pub copy_ref : Ref → Memory Ref
copy_ref none = give none
copy_ref (some a) = do c ← load a; b ← alloc c; give (some b)

pub copy_ref-Copies : (r : Ref) → Copies cell_shape copy_ref r
unfolding copy_ref alloc
copy_ref-Copies none h below = record {
  extends = Extends-refl h;
  same = refl;
  fresh = (tt, tt);
  below = (tt, tt);
}
copy_ref-Copies (some a) h below = record {
  extends = alloc-Extends (h.cell a) h;
  same = rw (alloc_cell (h.cell a) h);
  fresh = (omega arith, tt);
  below = (omega arith, tt);
}

-- two fields, one after the other
module _ {A B V W : Type 0} (S : Shape A V) (T : Shape B W) where
  abbrev pub pair_shape : Shape (A × B) (V × W)
  pair_shape = record {
    reach = λ h ab. S.reach h ab.0 ++ T.reach h ab.1;
    view = λ h ab. (S.view h ab.0, T.view h ab.1);
    local = λ g h ab ag.
        let (l, r) = All-parts (Agree g h) (S.reach g ab.0) (T.reach g ab.1) ag in
        let s = S.local g h ab.0 l in let t = T.local g h ab.1 r in (rw (s.0, t.0), rw (s.1, t.1));
  }

  abbrev pub copy_pair : (A → Memory A) → (B → Memory B) → A × B → Memory (A × B)
  copy_pair f g ab = do a ← f ab.0; b ← g ab.1; give (a, b)

  pub copy_pair-Copies :
      (f : A → Memory A) (g : B → Memory B) (ab : A × B)
      → Copies S f ab.0
      → Copies T g ab.1
      → Copies pair_shape (copy_pair f g) ab
  copy_pair-Copies f g ab cf cg h below =
      let (bl, br) = All-parts (Below h.next) (S.reach h ab.0) (T.reach h ab.1) below in
      let p = cf h bl in
      let q = cg (f ab.0 h).1 (Below-later T p.extends ab.1 br) in
      let a' = (f ab.0 h).0 in
      let b' = (g ab.1 (f ab.0 h).1).0 in
      let k = (g ab.1 (f ab.0 h).1).1 in
      record {
        extends = Extends-trans p.extends q.extends;
        same =
            rw (view_later S q.extends a' p.below, p.same, q.same, view_later T p.extends ab.1 br);
        fresh =
            All-append (Fresh h.next) (S.reach k a') (T.reach k b')
              (rw (reach_later S q.extends a' p.below) p.fresh)
              (All-map (Fresh-mono p.extends) (T.reach k b') q.fresh);
        below =
            All-append (Below k.next) (S.reach k a') (T.reach k b')
              (Below-later S q.extends a' p.below) q.below;
      }

-- the elements of a slice, one after the other
unfoldable pub copy_all : {A : Type 0} → (A → Memory A) → List A → Memory (List A)
copy_all f [] = give []
copy_all f (x ∷ xs) = do y ← f x; ys ← copy_all f xs; give (y ∷ ys)

module _ {A V : Type 0} (S : Shape A V) where
  unfoldable pub reach_all : Heap → List A → List Ref
  reach_all h [] = []
  reach_all h (x ∷ xs) = S.reach h x ++ reach_all h xs

  pub All-local :
      (g h : Heap) (xs : List A)
      → All (Agree g h) (reach_all g xs)
      → (reach_all h xs ≡ reach_all g xs) × (map (S.view h) xs ≡ map (S.view g) xs)
  unfolding reach_all
  All-local g h [] ag = (refl, refl)
  All-local g h (x ∷ xs) ag =
      let (l, r) = All-parts (Agree g h) (S.reach g x) (reach_all g xs) ag in
      let s = S.local g h x l in let t = All-local g h xs r in (rw (s.0, t.0), rw (s.1, t.1))

  abbrev pub all_shape : Shape (List A) (List V)
  all_shape = record { reach = reach_all; view = λ h xs. map (S.view h) xs; local = All-local }

  pub copy_all-Copies :
      (f : A → Memory A)
      → ((x : A) → Copies S f x)
      → (xs : List A) → Copies all_shape (copy_all f) xs
  unfolding copy_all reach_all
  copy_all-Copies f cf [] h below = record {
    extends = Extends-refl h;
    same = refl;
    fresh = tt;
    below = tt;
  }
  copy_all-Copies f cf (x ∷ xs) h below =
      let c =
        copy_pair-Copies S all_shape f (copy_all f) (x, xs) (cf x) (copy_all-Copies f cf xs) h
          below in
      record {
        extends = c.extends;
        same = ap (λ vs. vs.0 ∷ vs.1) c.same;
        fresh = c.fresh;
        below = c.below;
      }

abbrev pub plain_part : (A : Type 0) → Copyable A A
plain_part A = record { shape = plain A; into = give; copies = plain-Copies A }

abbrev pub cell_part : Copyable Ref (Option Cell)
cell_part = record { shape = cell_shape; into = copy_ref; copies = copy_ref-Copies }

infixr 4 ◌then◌
abbrev pub ◌then◌ : {A B V W : Type 0} → Copyable A V → Copyable B W → Copyable (A × B) (V × W)
◌then◌ c d = record {
  shape = pair_shape c.shape d.shape;
  into = copy_pair c.shape d.shape c.into d.into;
  copies = λ ab. copy_pair-Copies c.shape d.shape c.into d.into ab (c.copies ab.0) (d.copies ab.1);
}

abbrev pub each_part : {B V : Type 0} → Copyable B V → Copyable (List B) (List V)
each_part c = record {
  shape = all_shape c.shape;
  into = copy_all c.into;
  copies = copy_all-Copies c.shape c.into c.copies;
}

-- A record is its fields: `into` copies them one after the other.
pub record Fields (B A : Type 0) : Type 0 where
  pub fields : B → A
  pub make : A → B
  pub undo : (a : A) → fields (make a) ≡ a

abbrev pub record_shape : {A B V W : Type 0} → Fields B A → (V → W) → Shape A V → Shape B W
record_shape F value S = record {
  reach = λ h b. S.reach h (F.fields b);
  view = λ h b. value (S.view h (F.fields b));
  local = λ g h b ag. let s = S.local g h (F.fields b) ag in (s.0, ap value s.1);
}

module _ {A B V W : Type 0} (F : Fields B A) (value : V → W) (C : Copyable A V)
    (into : B → Memory B) where
  abbrev pub ByFields : Type 0
  ByFields =
      (h : Heap) (b : B) → into b h ≡ (F.make (C.into (F.fields b) h).0, (C.into (F.fields b) h).1)

  pub fields-Copies : ByFields → (b : B) → Copies (record_shape F value C.shape) into b
  fields-Copies by_fields b h below =
      let c = C.copies (F.fields b) h below in
      let undone = F.undo (C.into (F.fields b) h).0 in
      rw (by_fields h b) record {
        extends = c.extends;
        same = rw undone (ap value c.same);
        fresh = rw undone c.fresh;
        below = rw undone c.below;
      }

  abbrev pub record_part : ByFields → Copyable B W
  record_part by_fields = record {
    shape = record_shape F value C.shape;
    into = into;
    copies = fields-Copies by_fields;
  }
