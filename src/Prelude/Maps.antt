-- ===== src/Prelude/Maps.antt =====
-- Go's maps with text keys, as association lists.
use Prim.Native.String.{String}
use mathlib.Core.Path.{◌≡◌}
use mathlib.Core.Option.{Option, none, some}
use mathlib.Core.List.{List, [], ◌∷◌}
use native.Mathlib.Omega.{arith}
use text.Mathlib.TextEquality.{eq_iff}
use denkeeper.Prelude.Tests.{if◌then◌else◌, ◌==◌, string_eq}

module _ {V : Type 0} where
  unfoldable pub lookup : String → List (String × V) → Option V
  lookup key [] = none
  lookup key ((k, v) ∷ m) = let rest = lookup key m in if k == key then some v else rest

  -- delete(m, key)
  unfoldable pub drop : String → List (String × V) → List (String × V)
  drop key [] = []
  drop key ((k, v) ∷ m) = let rest = drop key m in if k == key then rest else (k, v) ∷ rest

  -- m[key] = value
  unfoldable pub put : String → V → List (String × V) → List (String × V)
  unfolding drop
  put key v m = (key, v) ∷ drop key m

  pub lookup-drop :
      (key j : String) (m : List (String × V))
      → lookup j (drop key m) ≡ (if key == j then none else lookup j m)
  unfolding lookup drop
  lookup-drop key j [] = ground arith
  lookup-drop key j ((k, v) ∷ m) =
      ground (arith, eq_iff k key, eq_iff k j, eq_iff key j, lookup-drop key j m)

  pub lookup-put :
      (key j : String) (v : V) (m : List (String × V))
      → lookup j (put key v m) ≡ (if key == j then some v else lookup j m)
  unfolding lookup put
  lookup-put key j v m = ground (arith, lookup-drop key j m)
