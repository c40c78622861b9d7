-- ===== src/Table/Put.antt =====
-- `insert … on conflict (…) do update set …` of a row in a table with a unique column: the row with
-- the column's value gets the new contents, and where there is none a new row is added.
use redka.Base.{
  Bool, true, false, Option, none, some, List, [], ◌∷◌, ◌++◌, ◌≡◌, ◌↔◌, refl, All, All-map_if,
  All-append_one, map_if, is_some, or_else, if◌then◌else◌, Bool-cases, inl, inr, ap, ◌∙◌, sym,
}
use mathlib.Core.Option
use redka.Table
use redka.Table.{col-find, IsUnique-map_if, find-map_if, find-append, IsUnique-append_one}

none_of_test : {A : Type 0} (o : Option A) → is_some o ≡ false → o ≡ none
none_of_test none a = refl
none_of_test (some x) a = cc

or_else-none : {A : Type 0} (o : Option A) → or_else o none ≡ o
or_else-none none = refl
or_else-none (some x) = refl

abbrev pub put : {A K : Type 0} → (K → K → Bool) → (A → K) → (A → A) → K → A → List A → List A
put same col change k new rows =
    if is_some (Table.find same col k rows)
    then map_if (λ r. same (col r) k) change rows
    else rows ++ new ∷ []

module _ {A K : Type 0} (same : K → K → Bool) (same_iff : (a b : K) → (same a b ≡ true) ↔ (a ≡ b))
    (col : A → K) (change : A → A) (same_col : (r : A) → col (change r) ≡ col r) (k : K)
    (new : A) where
  -- the row of the value, which has the new contents
  pub find-put :
      {V : Type 0} (contents : A → V) (v : V) (rows : List A)
      → col new ≡ k
      → contents new ≡ v
      → ((r : A) → contents (change r) ≡ v)
      → Option.map contents (Table.find same col k (put same col change k new rows)) ≡ some v
  find-put contents v rows named fresh changed =
      elim (Bool-cases (is_some (Table.find same col k rows))) [
        | inl there ↦ rw there (
            rw (find-map_if same same_iff col (λ r. same (col r) k) change same_col k rows) (
              hit (Table.find same col k rows) there
                (λ r e. (same_iff (col r) k).1 (col-find same same_iff col k rows r e))))
        | inr absent ↦ rw absent (
            rw (find-append same same_iff col k rows) (
              rw (none_of_test (Table.find same col k rows) absent, (same_iff (col new) k).1 named)
                (ap some fresh)))
      ]
    where
      hit :
          (o : Option A)
          → is_some o ≡ true
          → ((r : A) → o ≡ some r → same (col r) k ≡ true)
          → Option.map contents (Option.map (λ r. if same (col r) k then change r else r) o)
            ≡ some v
      hit none s h = cc
      hit (some r) s h = rw (h r refl) (ap some (changed r))

  miss :
      (o : Option A)
      → ((r : A) → o ≡ some r → same (col r) k ≡ false)
      → Option.map (λ r. if same (col r) k then change r else r) o ≡ o
  miss none h = refl
  miss (some r) h = rw (h r refl)

  -- the other rows are as before
  pub find_other-put :
      (j : K) (rows : List A)
      → col new ≡ k
      → same k j ≡ false
      → Table.find same col j (put same col change k new rows) ≡ Table.find same col j rows
  find_other-put j rows named ne = elim (Bool-cases (is_some (Table.find same col k rows))) [
    | inl there ↦ rw there (
        find-map_if same same_iff col (λ r. same (col r) k) change same_col j rows
        ∙ miss (Table.find same col j rows)
            (λ r e. apart r (col-find same same_iff col j rows r e)))
    | inr absent ↦ rw absent (
        find-append same same_iff col j rows (new ∷ [])
        ∙ rw (ap (λ i. same i j) named ∙ ne) (or_else-none (Table.find same col j rows)))
  ]
    where
      apart : (r : A) → col r ≡ j → same (col r) k ≡ false
      apart r at = elim (Bool-cases (same (col r) k)) [
        | inr differ ↦ differ
        | inl hit ↦
            let e : k ≡ j = sym ((same_iff (col r) k).0 hit) ∙ at in cc (ne, (same_iff k j).1 e)
      ]

  pub IsUnique-put :
      (rows : List A)
      → col new ≡ k
      → Table.IsUnique same col rows
      → Table.IsUnique same col (put same col change k new rows)
  IsUnique-put rows named u = elim (Bool-cases (is_some (Table.find same col k rows))) [
    | inl there ↦
        rw there (IsUnique-map_if same same_iff col (λ r. same (col r) k) change same_col rows u)
    | inr absent ↦ rw absent (
        IsUnique-append_one same same_iff col rows new u (
          ap (λ i. Table.find same col i rows) named
          ∙ none_of_test (Table.find same col k rows) absent))
  ]

  pub All-put :
      (P : A → Type 0) (rows : List A)
      → All P rows
      → ((r : A) → P r → P (change r))
      → P new
      → All P (put same col change k new rows)
  All-put P rows o keeps h = elim (Bool-cases (is_some (Table.find same col k rows))) [
    | inl there ↦ rw there (All-map_if P (λ r. same (col r) k) change rows keeps o)
    | inr absent ↦ rw absent (All-append_one P rows new o h)
  ]
