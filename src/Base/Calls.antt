-- ===== src/Base/Calls.antt =====
-- Functions that change a state and may return an error. What was written before an error stays
-- written, so the state comes back beside the error too.
use mathlib.Core.Path.{◌≡◌, refl}
use mathlib.Core.Logic.{◌⊎◌, inl, inr}
use mathlib.Core.Bool.{Bool, true, false}
use native.Mathlib.Omega.{arith}
use service_provider_otel_co.Base.Tests.{if◌then◌else◌}

-- Go's `(A, error)`: the value counts only where the error is nil.
pub data Result {ℓ κ} (E : Type ℓ) (A : Type κ) : Type (ℓ ⊔ κ) where
  ok : A → Result E A
  err : E → Result E A

pub Result-cases {ℓ κ} :
    {E : Type ℓ} {A : Type κ} (r : Result E A) → ((a : A) × (r ≡ ok a)) ⊎ ((e : E) × (r ≡ err e))
Result-cases (ok a) = inl (a, refl)
Result-cases (err e) = inr (e, refl)

abbrev pub Exec : Type 0 → Type 0 → Type 0 → Type 0
Exec E S A = S → Result E A × S

module _ {E S A : Type 0} where
  abbrev pub pure : A → Exec E S A
  pure a s = (ok a, s)

  abbrev pub raise : E → Exec E S A
  raise e s = (err e, s)

  abbrev pub lift : Result E A → Exec E S A
  lift r s = (r, s)

  -- Makes the call and hands its error over as a value, as Go does.
  abbrev pub try : Exec E S A → Exec E S (Result E A)
  try m s = let (r, s') = m s in (ok r, s')

abbrev pub continue : {E S A B : Type 0} → Result E A → (A → Exec E S B) → Exec E S B
continue (ok a) f s = f a s
continue (err e) f s = (err e, s)

infixl 5 ◌>>=◌ ◌>>◌
abbrev pub ◌>>=◌ : {E S A B : Type 0} → Exec E S A → (A → Exec E S B) → Exec E S B
◌>>=◌ m f s = let (r, s') = m s in continue r f s'

abbrev pub ◌>>◌ : {E S A B : Type 0} → Exec E S A → Exec E S B → Exec E S B
m >> k = m >>= λ _. k

-- A predicate that `m` keeps, whether it returns a value or an error.
pub record Keeps {E S A : Type 0} (P : S → Type 0) (m : Exec E S A) : Type 0 where
  pub at : (s : S) → P s → P (m s).1

module _ {E S A : Type 0} {P : S → Type 0} where
  pub Keeps-pure : (a : A) → Keeps P (pure {E = E} a)
  Keeps-pure a = record { at = λ s h. h }

  pub Keeps-raise : (e : E) → Keeps P (raise {A = A} e)
  Keeps-raise e = record { at = λ s h. h }

  pub Keeps-lift : (r : Result E A) → Keeps P (lift r)
  Keeps-lift r = record { at = λ s h. h }

  pub Keeps-try : (m : Exec E S A) → Keeps P m → Keeps P (try m)
  Keeps-try m h = record { at = λ s p. h.at s p }

  pub Keeps-if :
      (b : Bool) (m n : Exec E S A) → Keeps P m → Keeps P n → Keeps P (if b then m else n)
  Keeps-if true m n km kn = km
  Keeps-if false m n km kn = kn

module _ {E S A B : Type 0} {P : S → Type 0} where
  Keeps-continue :
      (f : A → Exec E S B) (r : Result E A) (s : S)
      → ((a : A) → Keeps P (f a))
      → P s
      → P (continue r f s).1
  Keeps-continue f (ok a) s kf h = (kf a).at s h
  Keeps-continue f (err e) s kf h = h

  pub Keeps-bind :
      (m : Exec E S A) (f : A → Exec E S B)
      → Keeps P m
      → ((a : A) → Keeps P (f a))
      → Keeps P (m >>= f)
  Keeps-bind m f km kf = record {
    at = λ s h. let (r, s') = m s in Keeps-continue f r s' kf (km.at s h);
  }

pub ruleset keeps_rules = (Keeps-pure, Keeps-raise, Keeps-lift, Keeps-try, Keeps-if, Keeps-bind)

module _ {E S A B : Type 0} where
  -- A chain that returned a value: its first step did, and the rest went on from there.
  pub bind-ok :
      (m : Exec E S A) (f : A → Exec E S B) (s : S) {b : B}
      → ((m >>= f) s).0 ≡ ok b
      → (a : A) × ((m s).0 ≡ ok a) × ((m >>= f) s ≡ f a (m s).1)
  bind-ok m f s h = go (m s).0 (m s).1 h
    where
      go :
          (r : Result E A) (t : S) {b : B}
          → (continue r f t).0 ≡ ok b
          → (a : A) × (r ≡ ok a) × (continue r f t ≡ f a t)
      go (ok a) t h = (a, refl, refl)
      go (err e) t h = cc

  -- A chain whose first step is known.
  pub bind-step :
      (m : Exec E S A) (f : A → Exec E S B) (s : S) {a : A}
      → (m s).0 ≡ ok a
      → (m >>= f) s ≡ f a (m s).1
  bind-step m f s h = ground arith

-- What holds of the value, if there is one.
abbrev pub Gives {ℓ} : {E A : Type 0} → (A → Type ℓ) → Result E A → Type ℓ
Gives P (ok a) = P a
Gives P (err e) = Unit

-- The rest of a chain decides what holds of its value.
pub bind-Gives {ℓ} :
    {E S A B : Type 0} (P : B → Type ℓ) (m : Exec E S A) (f : A → Exec E S B) (s : S)
    → ((a : A) (t : S) → Gives P (f a t).0)
    → Gives P ((m >>= f) s).0
bind-Gives {E} {S} {A} P m f s h = go (m s).0 (m s).1
  where
    go : (r : Result E A) (t : S) → Gives P (continue r f t).0
    go (ok a) t = h a t
    go (err e) t = tt

-- The same, where the rest knows what the first step gives.
pub bind-Gives_of {ℓ κ} :
    {E S A B : Type 0} (P : A → Type ℓ) (Q : B → Type κ) (m : Exec E S A) (f : A → Exec E S B)
    (s : S)
    → Gives P (m s).0
    → ((a : A) (t : S) → P a → Gives Q (f a t).0)
    → Gives Q ((m >>= f) s).0
bind-Gives_of {E} {S} {A} P Q m f s p h = go (m s).0 (m s).1 p
  where
    go : (r : Result E A) (t : S) → Gives P r → Gives Q (continue r f t).0
    go (ok a) t p = h a t p
    go (err e) t p = tt
