-- ===== src/Examples/Store.antt =====
-- A table of objects by key, for the clusters of the examples.
use service_provider_otel_co.Base.{
  ◌≡◌, refl, true, false, Option, none, some, List, [], ◌∷◌, arith, text_eq_iff, Bool-cases, inl,
  inr, if◌then◌else◌,
}
use service_provider_otel_co.Kube.Objects.{ObjectKey}
use service_provider_otel_co.Kube.Laws.{key_eq}
use service_provider_otel_co.Kube.Changes.{key_eq→eq}

pub key_eq_refl : (a : ObjectKey) → key_eq a a ≡ true
key_eq_refl a = ground (arith, text_eq_iff a.namespace a.namespace, text_eq_iff a.name a.name)

module _ {A : Type 0} (key : A → ObjectKey) where
  abbrev pub find : ObjectKey → List A → Option A
  find k [] = none
  find k (o ∷ os) = if key_eq (key o) k then some o else find k os

  abbrev pub drop : ObjectKey → List A → List A
  drop k [] = []
  drop k (o ∷ os) = let rest = drop k os in if key_eq (key o) k then rest else o ∷ rest

  abbrev pub put : A → List A → List A
  put o os = o ∷ drop (key o) os

  pub find-drop_self : (k : ObjectKey) (os : List A) → find k (drop k os) ≡ none
  find-drop_self k [] = refl
  find-drop_self k (o ∷ os) = ground (arith, find-drop_self k os)

  pub find-drop_ne :
      (k j : ObjectKey) (os : List A) → key_eq k j ≡ false → find j (drop k os) ≡ find j os
  find-drop_ne k j [] h = refl
  find-drop_ne k j (o ∷ os) h =
      ground (arith, find-drop_ne k j os, key_eq→eq (key o) k, key_eq→eq (key o) j, h)

  pub find-put_self : (o : A) (os : List A) → find (key o) (put o os) ≡ some o
  find-put_self o os = ground (arith, key_eq_refl (key o))

  pub find-put_ne :
      (o : A) (j : ObjectKey) (os : List A)
      → key_eq (key o) j ≡ false
      → find j (put o os) ≡ find j os
  find-put_ne o j os h = ground (arith, find-drop_ne (key o) j os)

  abbrev pub IsAt : ObjectKey → Option A → Type 0
  IsAt k none = Unit
  IsAt k (some o) = key o ≡ k

  pub find-IsAt : (k : ObjectKey) (os : List A) → IsAt k (find k os)
  find-IsAt k [] = tt
  find-IsAt k (o ∷ os) = elim (Bool-cases (key_eq (key o) k)) [
    | inl e ↦ rw e (key_eq→eq (key o) k e)
    | inr e ↦ rw e (find-IsAt k os)
  ]
