-- ===== src/Prelude/Map.antt =====
-- A Go map as an association list. A key stands at most once, since a write replaces it in place.
use mathlib.Core.Path.{◌≡◌, refl}
use mathlib.Core.Option.{Option, none, some}
use mathlib.Core.Option
use mathlib.Core.List.{List, [], ◌∷◌}
use native.Mathlib.Omega.{arith}
use agent_native_os.Prelude.Tests.{Comparable, ◌==◌, if◌then◌else◌, ==-refl}

abbrev pub Map {ℓ κ} : Type ℓ → Type κ → Type (ℓ ⊔ κ)
Map K V = List (K × V)

module _ {ℓ κ} {K : Type ℓ} {V : Type κ} where
  -- A loop over a map that rewrites each value.
  unfoldable pub map_values : (V → V) → Map K V → Map K V
  map_values f [] = []
  map_values f ((y, w) ∷ m) = (y, f w) ∷ map_values f m

  unfoldable pub values : Map K V → List V
  values [] = []
  values ((y, w) ∷ m) = w ∷ values m

module _ {ℓ κ} {K : Type ℓ} {V : Type κ} ⦃e : Comparable K⦄ where
  -- v, ok := m[x]
  unfoldable pub lookup : K → Map K V → Option V
  lookup x [] = none
  lookup x ((y, v) ∷ m) = if y == x then some v else lookup x m

  -- m[x] = v
  unfoldable pub insert : K → V → Map K V → Map K V
  insert x v [] = (x, v) ∷ []
  insert x v ((y, w) ∷ m) = if y == x then (y, v) ∷ m else (y, w) ∷ insert x v m

  -- delete(m, x)
  unfoldable pub erase : K → Map K V → Map K V
  erase x [] = []
  erase x ((y, w) ∷ m) = let rest = erase x m in if y == x then rest else (y, w) ∷ rest

  pub lookup-insert :
      (x y : K) (v : V) (m : Map K V)
      → lookup y (insert x v m) ≡ (if x == y then some v else lookup y m)
  unfolding lookup insert
  lookup-insert x y v [] = refl
  lookup-insert x y v ((i, w) ∷ m) = ground (
    arith,
    e.same_value_iff x y,
    e.same_value_iff i x,
    e.same_value_iff i y,
    lookup-insert x y v m,
  )

  pub lookup-erase :
      (x y : K) (m : Map K V) → lookup y (erase x m) ≡ (if x == y then none else lookup y m)
  unfolding lookup erase
  lookup-erase x y [] = ground arith
  lookup-erase x y ((i, w) ∷ m) =
      ground (
        arith,
        e.same_value_iff x y,
        e.same_value_iff i x,
        e.same_value_iff i y,
        lookup-erase x y m,
      )

  pub lookup-map_values :
      (f : V → V) (x : K) (m : Map K V) → lookup x (map_values f m) ≡ Option.map f (lookup x m)
  unfolding lookup map_values
  lookup-map_values f x [] = refl
  lookup-map_values f x ((i, w) ∷ m) = ground (arith, lookup-map_values f x m)

  pub lookup-insert_self : (x : K) (v : V) (m : Map K V) → lookup x (insert x v m) ≡ some v
  lookup-insert_self x v m = ground (arith, lookup-insert x x v m, ==-refl x)
