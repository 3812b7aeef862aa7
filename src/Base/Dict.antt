-- ===== src/Base/Dict.antt =====
-- A `Record<string, V>` as an association list in the order of insertion.
use Prim.Native.String.{String}
use mathlib.Core.Path.{◌≡◌, refl}
use mathlib.Core.List.{List, [], ◌∷◌, map}
use mathlib.Core.Option.{Option, none, some}
use native.Mathlib.Omega.{arith}
use porker_monorepo.Base.Tests.{if◌then◌else◌, ◌===◌, ===_iff}

module _ {ℓ} {V : Type ℓ} where
  abbrev pub lookup : String → List (String × V) → Option V
  lookup k [] = none
  lookup k ((j, v) ∷ m) = let rest = lookup k m in if j === k then some v else rest

  abbrev pub insert : String → V → List (String × V) → List (String × V)
  insert k v [] = (k, v) ∷ []
  insert k v ((j, w) ∷ m) = let rest = insert k v m in if j === k then (j, v) ∷ m else (j, w) ∷ rest

  abbrev pub keys : List (String × V) → List String
  keys m = map (λ e. e.0) m

  pub lookup-insert :
      (k j : String) (v : V) (m : List (String × V))
      → lookup j (insert k v m) ≡ (if k === j then some v else lookup j m)
  lookup-insert k j v [] = refl
  lookup-insert k j v ((i, w) ∷ m) =
      ground (arith, ===_iff k j, ===_iff i k, ===_iff i j, lookup-insert k j v m)
