-- ===== src/Rzset/Store.antt =====
-- `store` of internal/rzset/inter.go and union.go: the new set and its rows.
use redka.Base.{
  ℕ, String, false, Option, none, some, List, [], ◌∷◌, ◌≡◌, refl, arith, str_eq, eq_iff, map,
  Bool-cases, Option-cases, inl, inr, ap, ◌∙◌, sym, subst,
}
use mathlib.Core.Option
use redka.Table
use redka.Table.{find-append, find-keep, IsUnique-keep}
use redka.Schema.{ZsetRow}
use redka.Rkey.{is_in}
use redka.Rzset.Driver.{SetDriver, Aggregate}
use redka.Rzset.Combine.{Operation, elems_of, elems_in, scored, of_elem}
use redka.Rzset.Sorted.{ElemsUnique, find_row}

pub some_eq : {A : Type 0} {x y : A} → some x ≡ some y → x ≡ y
some_eq h = cc

pub none_ne : {A : Type 0} {x : A} → none ≡ some x → ⊥
none_ne h = cc

none_of_map : (o : Option ZsetRow) → Option.map (λ (z : ZsetRow). z.elem) o ≡ none → o ≡ none
none_of_map none h = refl
none_of_map (some z) h = cc

-- texts without a repetition
abbrev pub Distinct : List String → Type 0
Distinct = Table.IsUnique str_eq (λ (s : String). s)

abbrev pub find_text : String → List String → Option String
find_text = Table.find str_eq (λ (s : String). s)

absent_text : (e : String) (es : List String) → is_in es e ≡ false → find_text e es ≡ none
absent_text e [] h = refl
absent_text e (x ∷ es) h = ground (arith, absent_text e es)

pub elems_of-Distinct : (zs : List ZsetRow) → Distinct (elems_of zs)
unfolding elems_of
elems_of-Distinct [] = tt
elems_of-Distinct (z ∷ zs) = elim (Bool-cases (is_in (elems_of zs) z.elem)) [
  | inl there ↦ rw there (elems_of-Distinct zs)
  | inr absent ↦ rw absent (absent_text z.elem (elems_of zs) absent, elems_of-Distinct zs)
]

pub elems_in-Distinct :
    (op : Operation) (n : ℕ) (rows : List ZsetRow) → Distinct (elems_in op n rows)
unfolding elems_in
elems_in-Distinct op n rows =
    IsUnique-keep str_eq eq_iff (λ (s : String). s) _ (elems_of rows) (elems_of-Distinct rows)

module _ (d : SetDriver) (a : Aggregate) (rows : List ZsetRow) where
  -- the rows of the result have the elements that were given
  pub find-scored :
      (e : String) (es : List String) (zs : List ZsetRow)
      → scored d a es rows ≡ some zs
      → Option.map (λ (z : ZsetRow). z.elem) (find_row e zs) ≡ find_text e es
  unfolding scored
  find-scored e [] zs h =
      ap (λ zs'. Option.map (λ (z : ZsetRow). z.elem) (find_row e zs')) (sym (some_eq h))
  find-scored e (x ∷ es) zs h =
      elim (Option-cases (d.aggregate a (map (λ z. z.score) (of_elem x rows)))) [
        | inl null ↦ absurd (none_ne (sym (rw (null, scored)) ∙ h))
        | inr (y, some_score) ↦ elim (Option-cases (scored d a es rows)) [
          | inl null ↦ absurd (none_ne (sym (rw (some_score, scored) (rw null)) ∙ h))
          | inr (zs', rest) ↦
              let q : some (record { rowid = 0; key_id = 0; elem = x; score = y } ∷ zs') ≡ some zs =
                sym (rw (some_score, scored) (rw rest)) ∙ h in
              ap (λ ws. Option.map (λ (z : ZsetRow). z.elem) (find_row e ws)) (sym (some_eq q))
              ∙ ground (arith, find-scored e es zs' rest)
        ]
      ]

  pub scored-ElemsUnique :
      (es : List String) (zs : List ZsetRow)
      → scored d a es rows ≡ some zs
      → Distinct es
      → ElemsUnique zs
  unfolding scored
  scored-ElemsUnique [] zs h u = subst ElemsUnique (some_eq h) tt
  scored-ElemsUnique (x ∷ es) zs h u =
      elim (Option-cases (d.aggregate a (map (λ z. z.score) (of_elem x rows)))) [
        | inl null ↦ absurd (none_ne (sym (rw (null, scored)) ∙ h))
        | inr (y, some_score) ↦ elim (Option-cases (scored d a es rows)) [
          | inl null ↦ absurd (none_ne (sym (rw (some_score, scored) (rw null)) ∙ h))
          | inr (zs', rest) ↦
              let q : some (record { rowid = 0; key_id = 0; elem = x; score = y } ∷ zs') ≡ some zs =
                sym (rw (some_score, scored) (rw rest)) ∙ h in
              subst ElemsUnique (some_eq q) (
                none_of_map (find_row x zs') (find-scored x es zs' rest ∙ u.0),
                scored-ElemsUnique es zs' rest u.1,
              )
        ]
      ]
