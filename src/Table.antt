-- ===== src/Table.antt =====
-- A table with a column that a unique index covers: the rows as a list in the order in which the
-- engine visits them, the row with a given value of the column, and the index as an invariant.
pub mod Put
use redka.Base.{
  Bool, true, List, [], ◌∷◌, ◌++◌, Option, none, some, ◌≡◌, ◌↔◌, refl, ◌&&◌, arith, first, keep,
  map_if, guarded, or_else, if◌then◌else◌, inl, inr, Bool-cases,
}
use mathlib.Core.Option

module _ {A K : Type 0} (same : K → K → Bool) (col : A → K) where
  abbrev pub find : K → List A → Option A
  find v [] = none
  find v (r ∷ rs) = let rest = find v rs in if same (col r) v then some r else rest

  -- no two rows agree in the column
  abbrev pub IsUnique : List A → Type 0
  IsUnique [] = Unit
  IsUnique (r ∷ rs) = (find (col r) rs ≡ none) × IsUnique rs

module _ {A K : Type 0} (same : K → K → Bool) (same_iff : (a b : K) → (same a b ≡ true) ↔ (a ≡ b))
    (col : A → K) where
  pub find-append :
      (v : K) (xs ys : List A)
      → find same col v (xs ++ ys) ≡ or_else (find same col v xs) (find same col v ys)
  find-append v [] ys = refl
  find-append v (r ∷ xs) ys = ground (arith, find-append v xs ys)

  pub col-find : (v : K) (rs : List A) (r : A) → find same col v rs ≡ some r → col r ≡ v
  col-find v [] r h = ground arith
  col-find v (x ∷ rs) r h = ground (arith, col-find v rs r, same_iff (col x) v)

  pub IsUnique-append_one :
      (rs : List A) (r : A)
      → IsUnique same col rs
      → find same col (col r) rs ≡ none
      → IsUnique same col (rs ++ r ∷ [])
  IsUnique-append_one [] r u h = (refl, tt)
  IsUnique-append_one (x ∷ rs) r u h = (
    rw find-append (ground (arith, same_iff (col x) (col r), same_iff (col r) (col x))),
    IsUnique-append_one rs r u.1 (ground arith),
  )

  pub find-map_if :
      (p : A → Bool) (f : A → A)
      → ((r : A) → col (f r) ≡ col r)
      → (v : K) (rs : List A)
      → find same col v (map_if p f rs)
        ≡ Option.map (λ r. if p r then f r else r) (find same col v rs)
  find-map_if p f same_col v [] = refl
  find-map_if p f same_col v (r ∷ rs) = ground (arith, same_col r, find-map_if p f same_col v rs)

  pub IsUnique-map_if :
      (p : A → Bool) (f : A → A)
      → ((r : A) → col (f r) ≡ col r)
      → (rs : List A) → IsUnique same col rs
      → IsUnique same col (map_if p f rs)
  IsUnique-map_if p f same_col [] u = tt
  IsUnique-map_if p f same_col (r ∷ rs) u = (
    ground (arith, same_col r, find-map_if p f same_col (col r) rs),
    IsUnique-map_if p f same_col rs u.1,
  )

  pub find-keep :
      (p : A → Bool) (v : K) (rs : List A)
      → IsUnique same col rs
      → find same col v (keep p rs) ≡ guarded p (find same col v rs)
  find-keep p v [] u = refl
  find-keep p v (r ∷ rs) u = ground (arith, find-keep p v rs u.1, same_iff (col r) v)

  pub find-keep-none :
      (p : A → Bool) (v : K) (rs : List A)
      → find same col v rs ≡ none
      → find same col v (keep p rs) ≡ none
  find-keep-none p v [] h = refl
  find-keep-none p v (r ∷ rs) h = ground (arith, find-keep-none p v rs)

  pub IsUnique-keep :
      (p : A → Bool) (rs : List A) → IsUnique same col rs → IsUnique same col (keep p rs)
  IsUnique-keep p [] u = tt
  IsUnique-keep p (r ∷ rs) u = ground (arith, find-keep-none p (col r) rs, IsUnique-keep p rs u.1)

  -- a query by the column and one more test returns the row of that value, if it passes the test
  pub first-eq-guarded :
      (q : A → Bool) (v : K) (rs : List A)
      → IsUnique same col rs
      → first (λ r. same (col r) v && q r) rs ≡ guarded q (find same col v rs)
  first-eq-guarded q v [] u = refl
  first-eq-guarded q v (r ∷ rs) u = ground (arith, first-eq-guarded q v rs u.1, same_iff (col r) v)

  -- a test of the column alone passes every row of a value that passes it
  pub guarded-find :
      (q : K → Bool) (v : K) (rs : List A)
      → q v ≡ true
      → guarded (λ r. q (col r)) (find same col v rs) ≡ find same col v rs
  guarded-find q v [] h = refl
  guarded-find q v (r ∷ rs) h = elim (Bool-cases (same (col r) v)) [
    | inl here ↦ rw here (let e : col r ≡ v = (same_iff (col r) v).0 here in rw (e, h))
    | inr there ↦ rw there (guarded-find q v rs h)
  ]
