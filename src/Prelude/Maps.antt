-- ===== src/Prelude/Maps.antt =====
-- A Go map with text keys, as an association list whose order is the order in which one run
-- iterates over the map.
use Prim.Native.String.{String}
use mathlib.Core.Path.{◌≡◌, refl}
use mathlib.Core.List.{List, [], ◌∷◌, map}
use mathlib.Core.Option.{Option, none, some}
use native.Mathlib.Omega.{arith}
use text.Mathlib.Text.{◌==◌}
use text.Mathlib.TextEquality.{eq_iff}
use nvidia_gpu_scheduler.Prelude.Tests.{if◌then◌else◌}

abbrev pub Map {ℓ} : Type ℓ → Type ℓ
Map V = List (String × V)

module _ {ℓ} {V : Type ℓ} where
  -- m[key], `none` for a missing key
  unfoldable pub lookup : String → Map V → Option V
  lookup key [] = none
  lookup key ((other, value) ∷ rest) = if other == key then some value else lookup key rest

  -- m[key] = value
  unfoldable pub insert : String → V → Map V → Map V
  insert key value [] = (key, value) ∷ []
  insert key value ((other, old) ∷ rest) =
      let later = insert key value rest in
      if other == key then (other, value) ∷ rest else (other, old) ∷ later

  -- Every entry of the key goes, so that no older entry shows.
  unfoldable pub delete : String → Map V → Map V
  delete k [] = []
  delete k ((j, w) ∷ m) = let rest = delete k m in if j == k then rest else (j, w) ∷ rest

  pub lookup-insert :
      (key asked : String) (value : V) (m : Map V)
      → lookup asked (insert key value m) ≡ (if key == asked then some value else lookup asked m)
  unfolding insert lookup
  lookup-insert key asked value [] = refl
  lookup-insert key asked value ((other, old) ∷ rest) = ground (
    arith,
    lookup-insert key asked value rest,
    eq_iff other key,
    eq_iff key asked,
    eq_iff other asked,
  )

  pub lookup-delete :
      (k j : String) (m : Map V) → lookup j (delete k m) ≡ (if k == j then none else lookup j m)
  unfolding lookup delete
  lookup-delete k j [] = ground arith
  lookup-delete k j ((i, w) ∷ m) =
      ground (arith, lookup-delete k j m, eq_iff i k, eq_iff i j, eq_iff k j)

  abbrev pub keys : Map V → List String
  keys = map (λ e. e.0)

  abbrev pub values : Map V → List V
  values = map (λ e. e.1)

pub ruleset map_laws = (lookup-insert, lookup-delete)
