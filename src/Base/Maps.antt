-- ===== src/Base/Maps.antt =====
-- Go's maps as association lists without an order that the program could see.
use midgard.Base.Tests.{Comparable, ◌==◌, if◌then◌else◌}
use mathlib.Core.Path.{◌≡◌, refl}
use mathlib.Core.Option.{Option, none, some}
use mathlib.Core.List.{List, [], ◌∷◌}
use native.Mathlib.Omega.{arith}

abbrev pub Map {ℓ κ} : Type ℓ → Type κ → Type (ℓ ⊔ κ)
Map K V = List (K × V)

module _ {ℓ κ} {K : Type ℓ} {V : Type κ} ⦃e : Comparable K⦄ where
  -- `v, ok := m[key]`
  unfoldable pub lookup : K → Map K V → Option V
  lookup key [] = none
  lookup key ((other, value) ∷ rest) = if other == key then some value else lookup key rest

  -- `m[key] = value`
  unfoldable pub insert : K → V → Map K V → Map K V
  insert key value ((other, old) ∷ rest) =
      if other == key then (key, value) ∷ rest else (other, old) ∷ insert key value rest
  insert key value [] = (key, value) ∷ []

  -- `delete(m, key)`
  unfoldable pub delete : K → Map K V → Map K V
  delete key [] = []
  delete key ((other, value) ∷ rest) =
      if other == key then delete key rest else (other, value) ∷ delete key rest

  pub lookup-insert :
      (key other : K) (value : V) (entries : Map K V)
      → lookup other (insert key value entries)
        ≡ (if key == other then some value else lookup other entries)
  unfolding insert lookup
  lookup-insert key other value ((third, old) ∷ rest) = ground (
    arith,
    lookup-insert key other value rest,
    e.equal_iff third key,
    e.equal_iff third other,
    e.equal_iff key other,
  )
  lookup-insert key other value [] = refl

  pub lookup-delete :
      (key other : K) (entries : Map K V)
      → lookup other (delete key entries) ≡ (if key == other then none else lookup other entries)
  unfolding delete lookup
  lookup-delete key other [] = ground arith
  lookup-delete key other ((third, old) ∷ rest) = ground (
    arith,
    e.equal_iff third key,
    e.equal_iff third other,
    e.equal_iff key other,
    lookup-delete key other rest,
  )
