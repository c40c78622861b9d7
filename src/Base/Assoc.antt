-- ===== src/Base/Assoc.antt =====
-- A Go map with string keys, as the list of its entries in the order of iteration.
use Prim.Native.String.{String}
use mathlib.Core.Path.{◌≡◌, refl}
use mathlib.Core.List.{List, [], ◌∷◌}
use mathlib.Core.Option.{Option, none, some}
use native.Mathlib.Omega.{arith}
use text.Mathlib.Text.{◌==◌ as str_eq}
use text.Mathlib.TextEquality.{eq_iff}
use redka.Base.Tests.{if◌then◌else◌}

module _ {V : Type 0} where
  -- `m[k]`
  abbrev pub lookup : String → List (String × V) → Option V
  lookup k [] = none
  lookup k ((j, v) ∷ m) = let rest = lookup k m in if str_eq j k then some v else rest

  -- `m[k] = v`
  abbrev pub put : String → V → List (String × V) → List (String × V)
  put k v [] = (k, v) ∷ []
  put k v ((j, w) ∷ m) = let rest = put k v m in if str_eq j k then (j, v) ∷ m else (j, w) ∷ rest

  -- `m[k] = v` for each entry of a list, the first entry first
  abbrev pub put_all : List (String × V) → List (String × V) → List (String × V)
  put_all [] m = m
  put_all ((k, v) ∷ entries) m = put_all entries (put k v m)

  abbrev pub names : List (String × V) → List String
  names [] = []
  names ((k, v) ∷ m) = k ∷ names m

  pub lookup-put :
      (k j : String) (v : V) (m : List (String × V))
      → lookup j (put k v m) ≡ (if str_eq k j then some v else lookup j m)
  lookup-put k j v [] = refl
  lookup-put k j v ((i, w) ∷ m) =
      ground (arith, eq_iff k j, eq_iff i k, eq_iff i j, lookup-put k j v m)
