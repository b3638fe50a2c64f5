-- ===== src/Api/DeepCopy/Pointer.antt =====
-- A pointer, or a slice, to something that holds references itself: `DeepCopy`, and the copy of a slice of objects.
use service_provider_otel_co.Base.{
  ℕ, suc, ◌≤◌, ◌≡◌, refl, ap, Option, none, some, List, [], ◌∷◌, All, All-map, arith,
}
use service_provider_otel_co.Api.DeepCopy.Heap.{
  Ref, Cell, Heap, Memory, give, ◌>>=◌, ◌>>◌, load, store, alloc, write, read, Below, Extends,
  Extends-refl, Extends-trans, alloc-Extends, write-Extends, read-write, write_cell, alloc_address,
  alloc_next,
}
use service_provider_otel_co.Api.DeepCopy.Shape.{
  Agree, Shape, Copied, Copies, Copyable, view_later, Below-later, Fresh-mono,
}

-- The type of cell that holds a value; a cell of another type holds none.
pub record Held (B : Type 0) : Type 0 where
  pub wrap : B → Cell
  pub unwrap : Cell → Option B
  pub law : (b : B) → unwrap (wrap b) ≡ some b

module _ {B : Type 0} (H : Held B) where
  abbrev inside : Option Cell → Option B
  inside none = none
  inside (some c) = H.unwrap c

  -- `zero` is what `new` and `make` give.
  module _ (zero : B → B) (into : B → Memory B) where
    pub copy_at : Option B → Memory Ref
    copy_at none = give none
    copy_at (some b) = do
      out ← alloc (H.wrap (zero b))
      b' ← into b
      store out (H.wrap b')
      give (some out)

    unfoldable pub copy_pointer : Ref → Memory Ref
    copy_pointer none = give none
    copy_pointer (some a) = do c ← load a; copy_at (H.unwrap c)

module _ {B V : Type 0} (H : Held B) (S : Shape B V) where
  abbrev behind : Heap → Option B → List Ref
  behind h none = []
  behind h (some b) = S.reach h b

  abbrev seen : Heap → Option B → Option V
  seen h none = none
  seen h (some b) = some (S.view h b)

  pub behind_local :
      (g h : Heap) (b : Option B)
      → All (Agree g h) (behind g b)
      → (behind h b ≡ behind g b) × (seen h b ≡ seen g b)
  behind_local g h none ag = (refl, refl)
  behind_local g h (some b) ag = let s = S.local g h b ag in (s.0, ap some s.1)

  abbrev pub pointer_shape : Shape Ref (Option V)
  pointer_shape = record {
    reach = λ h r. r ∷ behind h (inside H (read h r));
    view = λ h r. seen h (inside H (read h r));
    local = λ g h r ag.
        let s = behind_local g h (inside H (read g r)) ag.1 in (rw (ag.0, s.0), rw (ag.0, s.1));
  }

  -- The last step: the cell at `a`, which `g` does not use, gets the copy that was made with the later cells.
  store-Copied :
      (g h1 k : Heap) (a : ℕ) (r : Ref) (b b' : B)
      → inside H (read g r) ≡ some b
      → All (Below g.next) (S.reach g b)
      → Extends g h1
      → g.next ≤ a
      → h1.next ≡ suc a
      → Copied S h1 b b' k
      → Copied pointer_shape g r (some a) (write a (H.wrap b') k)
  unfolding write
  store-Copied g h1 k a r b b' is below e le next c =
      let w = write a (H.wrap b') k in
      let later =
        All-map (λ q f. read-write a (H.wrap b') k q (rw (← next) f)) (S.reach k b') c.fresh in
      let s = S.local k w b' later in
      let at : inside H (read w (some a)) ≡ some b' = rw (write_cell a (H.wrap b') k) (H.law b') in
      record {
        extends = write-Extends a (H.wrap b') (Extends-trans e c.extends) le;
        same = rw (at, is, s.1, c.same, view_later S e b below);
        fresh = rw (at, s.0) (le, All-map (Fresh-mono e) (S.reach k b') c.fresh);
        below = rw (at, s.0) (let p = c.extends.grows in omega arith, c.below);
      }

  module _ (zero : B → B) (into : B → Memory B) (copies : (b : B) → Copies S into b) where
    copy_at-Copied :
        (h : Heap) (r : Ref) (b : Option B)
        → inside H (read h r) ≡ b
        → All (Below h.next) (behind h b)
        → Copied pointer_shape h r (copy_at H zero into b h).0 (copy_at H zero into b h).1
    unfolding copy_at
    copy_at-Copied h r none is below = record {
      extends = Extends-refl h;
      same = rw is;
      fresh = (tt, tt);
      below = (tt, tt);
    }
    copy_at-Copied h r (some b) is below =
        let c = H.wrap (zero b) in
        let h1 = (alloc c h).1 in
        let e = alloc-Extends c h in
        let copied = copies b h1 (Below-later S e b below) in
        store-Copied h h1 (into b h1).1 (alloc c h).0 r b (into b h1).0 is below e
          (rw (alloc_address c h) (omega arith)) (rw (alloc_address c h) (alloc_next c h)) copied

    pub copy_pointer-Copies : (r : Ref) → Copies pointer_shape (copy_pointer H zero into) r
    unfolding copy_pointer
    copy_pointer-Copies none h below = record {
      extends = Extends-refl h;
      same = refl;
      fresh = (tt, tt);
      below = (tt, tt);
    }
    copy_pointer-Copies (some a) h below =
        copy_at-Copied h (some a) (H.unwrap (h.cell a)) refl below.1

abbrev pub pointer_part : {B V : Type 0} → Held B → (B → B) → Copyable B V → Copyable Ref (Option V)
pointer_part H zero c = record {
  shape = pointer_shape H c.shape;
  into = copy_pointer H zero c.into;
  copies = copy_pointer-Copies H c.shape zero c.into c.copies;
}
