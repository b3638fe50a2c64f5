-- ===== src/Base/Total.antt =====
-- Calls that return a value.
use mathlib.Core.Path.{◌≡◌, refl, subst}
use service_provider_otel_co.Base.Calls.{Result, ok, err, Exec, try, continue, ◌>>=◌}

-- The call returns a value, and what holds of it and of the state then.
abbrev pub Meets : {E S A : Type 0} → (A → S → Type 0) → Result E A × S → Type 0
Meets Q (ok a, s) = Q a s
Meets Q (err e, s) = ⊥

module _ {E S A : Type 0} where
  -- A chain returns a value if its steps do.
  pub bind-Meets :
      {B : Type 0} (P : A → S → Type 0) (Q : B → S → Type 0) (m : Exec E S A) (f : A → Exec E S B)
      (s : S)
      → Meets P (m s)
      → ((a : A) (t : S) → P a t → Meets Q (f a t))
      → Meets Q ((m >>= f) s)
  bind-Meets {B} P Q m f s p h = go (m s) p
    where
      go : (x : Result E A × S) → Meets P x → Meets Q (continue x.0 f x.1)
      go (ok a, t) p = h a t p
      go (err e, t) p = absurd p

  pub Meets-map :
      (P Q : A → S → Type 0) (x : Result E A × S)
      → ((a : A) (t : S) → P a t → Q a t)
      → Meets P x
      → Meets Q x
  Meets-map P Q (ok a, t) h p = h a t p
  Meets-map P Q (err e, t) h p = p

  -- A call that is known to return a value.
  pub Meets-ok :
      (P : A → S → Type 0) (x : Result E A × S) {a : A} → x.0 ≡ ok a → P a x.1 → Meets P x
  Meets-ok P (ok b, t) {a} h p = subst (λ (x : A). P x t) (let e : a ≡ b = cc h in e) p
  Meets-ok P (err e, t) h p = cc h

  -- The same with its error handed over as a value.
  pub try-Meets :
      (P : A → S → Type 0) (m : Exec E S A) (s : S)
      → Meets P (m s)
      → Meets (λ r t. (a : A) × (r ≡ ok a) × P a t) (try m s)
  try-Meets P m s p = go (m s) p
    where
      go : (x : Result E A × S) → Meets P x → (a : A) × (x.0 ≡ ok a) × P a x.1
      go (ok a, t) p = (a, refl, p)
      go (err e, t) p = absurd p
