-- ===== src/Base/Dict.antt =====
-- A Go map as the list of its entries: `m[k]` and `m[k] = v`.
use mathlib.Core.Path.{◌≡◌, refl}
use mathlib.Core.Option.{Option, none, some}
use mathlib.Core.List.{List, [], ◌∷◌}
use native.Mathlib.Omega.{arith}
use text.Mathlib.TextEquality.{eq_iff}
use Prim.Native.String.{String}
use service_provider_otel_co.Base.Tests.{text_eq, if◌then◌else◌}

-- Names with their values.
abbrev pub Entries {ℓ} : Type ℓ → Type ℓ
Entries V = List (String × V)

module _ {ℓ} {V : Type ℓ} where
  unfoldable pub lookup : String → Entries V → Option V
  lookup name [] = none
  lookup name (e ∷ rest) = if text_eq e.0 name then some e.1 else lookup name rest

  unfoldable pub insert : String → V → Entries V → Entries V
  insert name value [] = (name, value) ∷ []
  insert name value (e ∷ rest) =
      let after = insert name value rest in
      if text_eq e.0 name then (name, value) ∷ rest else e ∷ after

  pub lookup-insert :
      (set read : String) (value : V) (entries : Entries V)
      → lookup read (insert set value entries)
        ≡ (if text_eq set read then some value else lookup read entries)
  unfolding insert lookup
  lookup-insert set read value [] = refl
  lookup-insert set read value (e ∷ rest) =
      ground
        (arith, lookup-insert set read value rest, eq_iff e.0 read, eq_iff e.0 set, eq_iff set read)

  -- The second of two values of one name stays.
  pub insert-insert :
      (name : String) (first second : V) (entries : Entries V)
      → insert name second (insert name first entries) ≡ insert name second entries
  unfolding insert
  insert-insert name first second [] = ground (arith, eq_iff name name)
  insert-insert name first second (e ∷ rest) =
      ground (arith, insert-insert name first second rest, eq_iff e.0 name, eq_iff name name)
