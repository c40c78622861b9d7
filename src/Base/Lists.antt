-- ===== src/Base/Lists.antt =====
-- Lists measured by native numbers, and the list operations that the statements of SQL come to.
use Prim.Native.Nat.{ℕ, zero, suc, ◌+◌, ◌≤◌}
use mathlib.Core.Path.{◌≡◌, refl, ap}
use mathlib.Core.Bool.{Bool, true, false}
use mathlib.Core.List.{List, [], ◌∷◌, ◌++◌}
use mathlib.Core.Option.{Option, none, some}
use native.Mathlib.Omega.{arith}
use redka.Base.Tests.{if◌then◌else◌, Bool-cases}
use mathlib.Core.Logic.{inl, inr}

module _ {ℓ} {A : Type ℓ} where
  abbrev pub length : List A → ℕ
  length [] = 0
  length (x ∷ xs) = suc (length xs)

  abbrev pub take : ℕ → List A → List A
  take zero xs = []
  take (suc n) [] = []
  take (suc n) (x ∷ xs) = x ∷ take n xs

  -- `offset :n` of SQL
  abbrev pub drop : ℕ → List A → List A
  drop zero xs = xs
  drop (suc n) [] = []
  drop (suc n) (x ∷ xs) = drop n xs

  abbrev pub get_elem? : List A → ℕ → Option A
  get_elem? [] i = none
  get_elem? (x ∷ xs) zero = some x
  get_elem? (x ∷ xs) (suc i) = get_elem? xs i

  abbrev pub head? : List A → Option A
  head? [] = none
  head? (x ∷ xs) = some x

  -- the first row that passes the test
  abbrev pub first : (A → Bool) → List A → Option A
  first p [] = none
  first p (x ∷ xs) = let rest = first p xs in if p x then some x else rest

  -- the rows that pass the test, in their order
  abbrev pub keep : (A → Bool) → List A → List A
  keep p [] = []
  keep p (x ∷ xs) = let rest = keep p xs in if p x then x ∷ rest else rest

  -- `f` at the rows that pass the test, the others as they are
  abbrev pub map_if : (A → Bool) → (A → A) → List A → List A
  map_if p f [] = []
  map_if p f (x ∷ xs) = (if p x then f x else x) ∷ map_if p f xs

  abbrev pub any : (A → Bool) → List A → Bool
  any p [] = false
  any p (x ∷ xs) = let rest = any p xs in if p x then true else rest

  abbrev pub All {κ} : (A → Type κ) → List A → Type κ
  All P [] = Unit
  All P (x ∷ xs) = P x × All P xs

  abbrev pub guarded : (A → Bool) → Option A → Option A
  guarded p none = none
  guarded p (some x) = if p x then some x else none

  abbrev pub or_else : Option A → Option A → Option A
  or_else none o = o
  or_else (some x) o = some x

  abbrev pub is_some : Option A → Bool
  is_some none = false
  is_some (some x) = true

module _ {ℓ} {A : Type ℓ} where
  pub length-append : (xs ys : List A) → length (xs ++ ys) ≡ length xs + length ys
  length-append [] ys = omega arith
  length-append (x ∷ xs) ys = omega (arith, length-append xs ys)

  pub length-keep-le : (p : A → Bool) (xs : List A) → length (keep p xs) ≤ length xs
  length-keep-le p [] = omega arith
  length-keep-le p (x ∷ xs) = ground (arith, length-keep-le p xs)

  -- tests that agree find the same rows
  pub first-congr : (p q : A → Bool) (xs : List A) → ((x : A) → p x ≡ q x) → first p xs ≡ first q xs
  first-congr p q [] e = refl
  first-congr p q (x ∷ xs) e = rw (e x, first-congr p q xs e)

  pub keep-congr : (p q : A → Bool) (xs : List A) → ((x : A) → p x ≡ q x) → keep p xs ≡ keep q xs
  keep-congr p q [] e = refl
  keep-congr p q (x ∷ xs) e = rw (e x, keep-congr p q xs e)

  pub length-keep-congr :
      (p q : A → Bool) (xs : List A)
      → ((x : A) → p x ≡ q x)
      → length (keep p xs) ≡ length (keep q xs)
  length-keep-congr p q xs e = ap length (keep-congr p q xs e)

module _ {ℓ κ} {A : Type ℓ} (P : A → Type κ) where
  pub All-map_if :
      (p : A → Bool) (f : A → A) (xs : List A)
      → ((x : A) → P x → P (f x))
      → All P xs
      → All P (map_if p f xs)
  All-map_if p f [] keeps o = tt
  All-map_if p f (x ∷ xs) keeps o = elim (Bool-cases (p x)) [
    | inl hit ↦ rw hit (keeps x o.0, All-map_if p f xs keeps o.1)
    | inr miss ↦ rw miss (o.0, All-map_if p f xs keeps o.1)
  ]

  pub All-append_one : (xs : List A) (x : A) → All P xs → P x → All P (xs ++ x ∷ [])
  All-append_one [] x o h = (h, tt)
  All-append_one (y ∷ xs) x o h = (o.0, All-append_one xs x o.1 h)

  pub All-keep : (p : A → Bool) (xs : List A) → All P xs → All P (keep p xs)
  All-keep p [] o = tt
  All-keep p (x ∷ xs) o = elim (Bool-cases (p x)) [
    | inl hit ↦ rw hit (o.0, All-keep p xs o.1)
    | inr miss ↦ rw miss (All-keep p xs o.1)
  ]
