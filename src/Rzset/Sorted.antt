-- ===== src/Rzset/Sorted.antt =====
-- The sorting of rows: the result is sorted, and the position of a row in it is the number of rows
-- that the order puts before it.
use redka.Base.{
  ℕ, suc, ◌+◌, String, Bool, true, false, ◌&&◌, ◌||◌, not, Option, none, some, List, [], ◌∷◌, ◌≡◌,
  refl, arith, str_eq, eq_iff, All, keep, length, Bool-cases, inl, inr, ap, ◌∙◌, sym, subst,
}
use redka.Table.{col-find}
use redka.Table
use redka.Schema.{ZsetRow}
use redka.Rzset.Order.{insert_row, sort_rows, ranked}

-- no two rows have the same element
abbrev pub ElemsUnique : List ZsetRow → Type 0
ElemsUnique = Table.IsUnique str_eq (λ (z : ZsetRow). z.elem)

abbrev pub find_row : String → List ZsetRow → Option ZsetRow
find_row = Table.find str_eq (λ (z : ZsetRow). z.elem)

module _ (le : ZsetRow → ZsetRow → Bool) where
  abbrev pub IsSorted : List ZsetRow → Type 0
  IsSorted [] = Unit
  IsSorted (z ∷ zs) = All (λ y. le z y ≡ true) zs × IsSorted zs

  -- the rows that the order puts before a row, which is not one of them
  abbrev pub is_before : ZsetRow → ZsetRow → Bool
  is_before r z = le z r && not (str_eq z.elem r.elem)

  module _ (total : (a b : ZsetRow) → (le a b || le b a) ≡ true)
      (trans : (a b c : ZsetRow) → le a b ≡ true → le b c ≡ true → le a c ≡ true)
      (antisym : (a b : ZsetRow) → le a b ≡ true → le b a ≡ true → a.elem ≡ b.elem) where
    All-insert :
        (P : ZsetRow → Type 0) (z : ZsetRow) (ys : List ZsetRow)
        → P z
        → All P ys
        → All P (insert_row le z ys)
    unfolding insert_row
    All-insert P z [] h o = (h, tt)
    All-insert P z (y ∷ ys) h o = elim (Bool-cases (le z y)) [
      | inl below ↦ rw below (h, (o.0, o.1))
      | inr above ↦ rw above (o.0, All-insert P z ys h o.1)
    ]

    All-le :
        (z y : ZsetRow) (ys : List ZsetRow)
        → le z y ≡ true
        → All (λ x. le y x ≡ true) ys
        → All (λ x. le z x ≡ true) ys
    All-le z y [] h o = tt
    All-le z y (x ∷ ys) h o = (trans z y x h o.0, All-le z y ys h o.1)

    insert-IsSorted :
        (z : ZsetRow) (ys : List ZsetRow) → IsSorted ys → IsSorted (insert_row le z ys)
    unfolding insert_row
    insert-IsSorted z [] s = (tt, tt)
    insert-IsSorted z (y ∷ ys) s = elim (Bool-cases (le z y)) [
      | inl below ↦ rw below ((below, All-le z y ys below s.0), (s.0, s.1))
      | inr above ↦ rw above (
        All-insert (λ x. le y x ≡ true) z ys (ground (arith, total z y)) s.0,
        insert-IsSorted z ys s.1,
      )
    ]

    pub sort-IsSorted : (zs : List ZsetRow) → IsSorted (sort_rows le zs)
    unfolding sort_rows
    sort-IsSorted [] = tt
    sort-IsSorted (z ∷ zs) = insert-IsSorted z (sort_rows le zs) (sort-IsSorted zs)

    -- sorting keeps the number of the rows that pass a test
    length-keep-insert :
        (p : ZsetRow → Bool) (z : ZsetRow) (ys : List ZsetRow)
        → length (keep p (insert_row le z ys)) ≡ length (keep p (z ∷ ys))
    unfolding insert_row
    length-keep-insert p z [] = refl
    length-keep-insert p z (y ∷ ys) = elim (Bool-cases (le z y)) [
      | inl below ↦ rw below
      | inr above ↦ rw above (ground (arith, length-keep-insert p z ys))
    ]

    pub length-keep-sort :
        (p : ZsetRow → Bool) (zs : List ZsetRow)
        → length (keep p (sort_rows le zs)) ≡ length (keep p zs)
    unfolding sort_rows
    length-keep-sort p [] = refl
    length-keep-sort p (z ∷ zs) =
        length-keep-insert p z (sort_rows le zs) ∙ ground (arith, length-keep-sort p zs)

    find-insert :
        (e : String) (z : ZsetRow) (ys : List ZsetRow)
        → find_row z.elem ys ≡ none
        → find_row e (insert_row le z ys) ≡ find_row e (z ∷ ys)
    unfolding insert_row
    find-insert e z [] h = refl
    find-insert e z (y ∷ ys) h = elim (Bool-cases (le z y)) [
      | inl below ↦ rw below
      | inr above ↦ rw above (
          ground
            (arith, find-insert e z ys, eq_iff y.elem z.elem, eq_iff y.elem e, eq_iff z.elem e))
    ]

    pub find-sort :
        (e : String) (zs : List ZsetRow)
        → ElemsUnique zs
        → find_row e (sort_rows le zs) ≡ find_row e zs
    unfolding sort_rows
    find-sort e [] u = refl
    find-sort e (z ∷ zs) u =
        find-insert e z (sort_rows le zs) (find-sort z.elem zs u.1 ∙ u.0)
        ∙ ground (arith, find-sort e zs u.1)

    insert-ElemsUnique :
        (z : ZsetRow) (ys : List ZsetRow)
        → find_row z.elem ys ≡ none
        → ElemsUnique ys
        → ElemsUnique (insert_row le z ys)
    unfolding insert_row
    insert-ElemsUnique z [] h u = (refl, tt)
    insert-ElemsUnique z (y ∷ ys) h u = elim (Bool-cases (le z y)) [
      | inl below ↦ rw below (h, (u.0, u.1))
      | inr above ↦
          let apart : str_eq y.elem z.elem ≡ false = ground (arith, h) in
          let h' : find_row z.elem ys ≡ none = ground (arith, h, apart) in
          let apart' : str_eq z.elem y.elem ≡ false =
            ground (arith, apart, eq_iff y.elem z.elem, eq_iff z.elem y.elem) in
          rw above (find-insert y.elem z ys h' ∙ rw apart' u.0, insert-ElemsUnique z ys h' u.1)
    ]

    pub sort-ElemsUnique : (zs : List ZsetRow) → ElemsUnique zs → ElemsUnique (sort_rows le zs)
    unfolding sort_rows
    sort-ElemsUnique [] u = tt
    sort-ElemsUnique (z ∷ zs) u =
        insert-ElemsUnique z (sort_rows le zs) (find-sort z.elem zs u.1 ∙ u.0)
          (sort-ElemsUnique zs u.1)

    found-All :
        (P : ZsetRow → Type 0) (e : String) (zs : List ZsetRow) (r : ZsetRow)
        → find_row e zs ≡ some r
        → All P zs
        → P r
    found-All P e [] r h o = cc
    found-All P e (z ∷ zs) r h o = elim (Bool-cases (str_eq z.elem e)) [
      | inl here ↦ let q : z ≡ r = ground (arith, here, h) in subst P q o.0
      | inr there ↦ found-All P e zs r (ground (arith, there, h)) o.1
    ]

    -- nothing that is sorted behind the row comes before it
    none_before :
        (r : ZsetRow) (ys : List ZsetRow)
        → All (λ y. le r y ≡ true) ys
        → find_row r.elem ys ≡ none
        → length (keep (is_before r) ys) ≡ 0
    none_before r [] o h = refl
    none_before r (y ∷ ys) o h =
        ground (arith, o.0, antisym r y o.0, eq_iff y.elem r.elem, none_before r ys o.1)

    -- In sorted rows the rank of an element is the number of rows before it.
    ranked-sorted :
        (n : ℕ) (e : String) (zs : List ZsetRow) (r : ZsetRow)
        → IsSorted zs
        → ElemsUnique zs
        → find_row e zs ≡ some r
        → ranked n e zs ≡ some (n + length (keep (is_before r) zs), r)
    unfolding ranked
    ranked-sorted n e [] r s u h = cc
    ranked-sorted n e (z ∷ zs) r s u h = elim (Bool-cases (str_eq z.elem e)) [
      | inl here ↦
          let q : z ≡ r = ground (arith, here, h) in
          let zero_before : length (keep (is_before r) zs) ≡ 0 =
            ap (λ y. length (keep (is_before y) zs)) (sym q) ∙ none_before z zs s.0 u.0 in
          let own : is_before z z ≡ false = ground (arith, (eq_iff z.elem z.elem).1 refl) in
          rw here (rw (← q) (rw own (ap (λ k. some (k, z)) (omega (arith, zero_before)))))
      | inr there ↦
          let h' : find_row e zs ≡ some r = ground (arith, there, h) in
          let below : le z r ≡ true = found-All (λ y. le z y ≡ true) e zs r h' s.0 in
          let named : r.elem ≡ e = col-find str_eq eq_iff (λ (y : ZsetRow). y.elem) e zs r h' in
          let apart : str_eq z.elem r.elem ≡ false = ap (str_eq z.elem) named ∙ there in
          rw (there, below, apart)
            (ranked-sorted (suc n) e zs r s.1 u.1 h' ∙ ap (λ k. some (k, r)) (omega arith))
    ]

    -- The rank of an element in the sorting of rows with different elements.
    pub ranked-sort :
        (e : String) (zs : List ZsetRow) (r : ZsetRow)
        → ElemsUnique zs
        → find_row e zs ≡ some r
        → ranked 0 e (sort_rows le zs) ≡ some (length (keep (is_before r) zs), r)
    ranked-sort e zs r u h =
        ranked-sorted 0 e (sort_rows le zs) r (sort-IsSorted zs) (sort-ElemsUnique zs u)
          (find-sort e zs u ∙ h)
        ∙ ap (λ k. some (k, r)) (omega (arith, length-keep-sort (is_before r) zs))

-- an element that no row has
pub ranked-none :
    (n : ℕ) (e : String) (zs : List ZsetRow) → find_row e zs ≡ none → ranked n e zs ≡ none
unfolding ranked
ranked-none n e [] h = refl
ranked-none n e (z ∷ zs) h = ground (arith, ranked-none (suc n) e zs)
