-- ===== src/Base/Maps.antt =====
-- A Go map with text keys, as a list of its entries in the order in which they were added.
use spotted_network.Base.Tests.{if◌then◌else◌}
use mathlib.Core.Path.{◌≡◌, refl}
use mathlib.Core.Option.{Option, none, some}
use mathlib.Core.List.{List, [], ◌∷◌}
use native.Mathlib.Omega.{arith}
use Prim.Native.String.{String}
use text.Mathlib.Text.{◌==◌}
use text.Mathlib.TextEquality.{eq_iff}

abbrev pub Map : Type 0 → Type 0
Map V = List (String × V)

module _ {V : Type 0} where
  -- `m[k]`
  unfoldable pub lookup : String → Map V → Option V
  lookup k [] = none
  lookup k ((j, v) ∷ m) = if j == k then some v else lookup k m

  -- `m[k] = v`
  unfoldable pub insert : String → V → Map V → Map V
  insert k v [] = (k, v) ∷ []
  insert k v ((j, w) ∷ m) = if j == k then (j, v) ∷ m else (j, w) ∷ insert k v m

  -- `delete(m, k)`
  unfoldable pub erase : String → Map V → Map V
  erase k [] = []
  erase k ((j, w) ∷ m) = let rest = erase k m in if j == k then rest else (j, w) ∷ rest

  unfoldable pub keys : Map V → List String
  keys [] = []
  keys ((k, _) ∷ m) = k ∷ keys m

  pub lookup-insert :
      (at other : String) (new : V) (entries : Map V)
      → lookup other (insert at new entries)
        ≡ (if at == other then some new else lookup other entries)
  unfolding lookup insert
  lookup-insert at other new [] = refl
  lookup-insert at other new ((key, old) ∷ rest) =
      ground
        (arith, lookup-insert at other new rest, eq_iff at other, eq_iff key other, eq_iff key at)

  pub lookup-erase :
      (k j : String) (m : Map V) → lookup j (erase k m) ≡ (if k == j then none else lookup j m)
  unfolding lookup erase
  lookup-erase k j [] = ground arith
  lookup-erase k j ((i, w) ∷ m) =
      ground (arith, lookup-erase k j m, eq_iff i k, eq_iff i j, eq_iff k j)
