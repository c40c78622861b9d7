-- ===== src/Scanner/Pages.antt =====
-- A scan of rows with ascending ids by pages visits every row once and ends.
use redka.Base.{
  get_elem?, drop, ℕ, zero, suc, ◌<◌, ◌≤◌, ltb, leb, ltb_ℤ, pos, Bool, true, false, ◌&&◌, some,
  List, [], ◌∷◌, ◌++◌, ◌≡◌, refl, arith, All, keep, take, length, if◌then◌else◌, Bool-cases, inl,
  inr, ap, ◌∙◌, sym, subst,
}
use redka.Scanner.{Scanner, new_scanner, next, advance, with_page, collect, add_row, after_next}

pub keep-and :
    {A : Type 0} (p q : A → Bool) (xs : List A) → keep (λ x. p x && q x) xs ≡ keep p (keep q xs)
keep-and p q [] = refl
keep-and p q (x ∷ xs) = ground (arith, keep-and p q xs)

-- the length of a page, less one: 10 rows by default
unfoldable pub page_rows : ℕ → ℕ
page_rows zero = 9
page_rows (suc n) = n

pub ltb_pos : (c i : ℕ) → ltb_ℤ (pos c) (pos i) ≡ ltb c i
ltb_pos c i = ground arith

pub swap_tests : (a b c b' : Bool) → b ≡ b' → (a && (b && c)) ≡ (b' && (a && c))
swap_tests a b c b' e = ground (arith, e)

module _ {A : Type 0} (id : A → ℕ) where
  -- the loop for the largest id
  unfoldable pub largest : ℕ → List A → ℕ
  largest acc [] = acc
  largest acc (x ∷ xs) = largest (if ltb acc (id x) then id x else acc) xs

  abbrev pub IsAscending : List A → Type 0
  IsAscending [] = Unit
  IsAscending (x ∷ xs) = All (λ y. id x < id y) xs × IsAscending xs

  abbrev pub behind : ℕ → A → Bool
  behind c x = ltb c (id x)

  -- the page behind a cursor, at most `n` rows long
  abbrev pub page : ℕ → List A → ℕ → ℕ × List A
  page n rows c = let rs = take n (keep (behind c) rows) in (largest 0 rs, rs)

  largest-ge : (acc : ℕ) (xs : List A) → acc ≤ largest acc xs
  unfolding largest
  largest-ge acc [] = omega arith
  largest-ge acc (x ∷ xs) = elim (Bool-cases (ltb acc (id x))) [
    | inl above ↦ ground (arith, above, largest-ge (id x) xs)
    | inr below ↦ ground (arith, below, largest-ge acc xs)
  ]

  keep-eq_self : (c : ℕ) (xs : List A) → All (λ y. c < id y) xs → keep (behind c) xs ≡ xs
  keep-eq_self c [] o = refl
  keep-eq_self c (x ∷ xs) o = ground (arith, o.0, keep-eq_self c xs o.1)

  -- the rows of a page, and the rows behind its largest id
  page-rest :
      (acc m : ℕ) (xs : List A)
      → All (λ y. acc < id y) xs
      → IsAscending xs
      → xs ≡ take m xs ++ keep (behind (largest acc (take m xs))) xs
  unfolding largest
  page-rest acc zero xs o s = sym (keep-eq_self acc xs o)
  page-rest acc (suc m) [] o s = refl
  page-rest acc (suc m) (x ∷ xs) o s =
      let up : ltb acc (id x) ≡ true = ground (arith, o.0) in
      let chosen : (if ltb acc (id x) then id x else acc) ≡ id x = rw up in
      let l : ℕ = largest (id x) (take m xs) in
      let step : largest acc (x ∷ take m xs) ≡ l = ap (λ a. largest a (take m xs)) chosen in
      let past : ltb l (id x) ≡ false = ground (arith, largest-ge (id x) (take m xs)) in
      let rest : keep (behind (largest acc (x ∷ take m xs))) (x ∷ xs) ≡ keep (behind l) xs =
        ap (λ i. keep (behind i) (x ∷ xs)) step ∙ rw past in
      ap (λ ys. x ∷ ys) (page-rest (id x) m xs s.0 s.1)
      ∙ ap (λ ys. x ∷ (take m xs ++ ys)) (sym rest)

  keep-keep :
      (c c' : ℕ) (xs : List A)
      → c ≤ c'
      → keep (behind c') xs ≡ keep (behind c') (keep (behind c) xs)
  keep-keep c c' [] h = refl
  keep-keep c c' (x ∷ xs) h = ground (arith, keep-keep c c' xs h)

  All-keep-behind : (c : ℕ) (xs : List A) → All (λ y. c < id y) (keep (behind c) xs)
  All-keep-behind c [] = tt
  All-keep-behind c (x ∷ xs) = elim (Bool-cases (ltb c (id x))) [
    | inl above ↦ rw above (ground arith, All-keep-behind c xs)
    | inr below ↦ rw below (All-keep-behind c xs)
  ]

  pub All-kept : (P : A → Type 0) (p : A → Bool) (xs : List A) → All P xs → All P (keep p xs)
  All-kept P p [] o = tt
  All-kept P p (x ∷ xs) o = elim (Bool-cases (p x)) [
    | inl hit ↦ rw hit (o.0, All-kept P p xs o.1)
    | inr miss ↦ rw miss (All-kept P p xs o.1)
  ]

  pub keep-IsAscending : (p : A → Bool) (xs : List A) → IsAscending xs → IsAscending (keep p xs)
  keep-IsAscending p [] s = tt
  keep-IsAscending p (x ∷ xs) s = elim (Bool-cases (p x)) [
    | inl hit ↦ rw hit (All-kept (λ y. id x < id y) p xs s.0, keep-IsAscending p xs s.1)
    | inr miss ↦ rw miss (keep-IsAscending p xs s.1)
  ]

  weaker : (c : ℕ) (xs : List A) → All (λ y. c < id y) xs → All (λ y. 0 < id y) xs
  weaker c [] o = tt
  weaker c (x ∷ xs) o = (omega (arith, o.0), weaker c xs o.1)

  module _ (m : ℕ) (rows : List A) (ascending : IsAscending rows) where
    -- what a scanner has still to return
    abbrev left : Scanner A → List A
    left s = drop s.index s.items ++ keep (behind s.cursor) rows

    next_page :
        (c : ℕ) (x : A) (xs : List A)
        → keep (behind c) rows ≡ x ∷ xs
        → x ∷ xs ≡ take (suc m) (x ∷ xs) ++ keep (behind (largest 0 (take (suc m) (x ∷ xs)))) rows
    unfolding largest
    next_page c x xs e =
        let kept : All (λ y. c < id y) (x ∷ xs) =
          subst (All (λ y. c < id y)) e (All-keep-behind c rows) in
        let sorted : IsAscending (x ∷ xs) =
          subst IsAscending e (keep-IsAscending (behind c) rows ascending) in
        let l : ℕ = largest 0 (take (suc m) (x ∷ xs)) in
        let l' : ℕ = if ltb 0 (id x) then id x else 0 in
        let up : c ≤ l = ground (arith, kept.0, largest-ge l' (take m xs)) in
        page-rest 0 (suc m) (x ∷ xs) (weaker c (x ∷ xs) kept) sorted
        ∙ ap (λ ys. take (suc m) (x ∷ xs) ++ ys)
            (ap (keep (behind l)) (sym e) ∙ sym (keep-keep c l rows up))

    fetch : ℕ → ℕ × List A
    fetch = page (suc m) rows

    -- the rest of a page that is not used up
    drop-eq :
        (i : ℕ) (xs : List A)
        → leb (length xs) i ≡ false
        → (x : A) × (get_elem? xs i ≡ some x) × (drop i xs ≡ x ∷ drop (suc i) xs)
    drop-eq i [] h = absurd (ground (arith, h))
    drop-eq zero (x ∷ xs) h = (x, refl, refl)
    drop-eq (suc i) (x ∷ xs) h = drop-eq i xs (ground (arith, h))

    drop-none : (i : ℕ) (xs : List A) → leb (length xs) i ≡ true → drop i xs ≡ []
    drop-none zero [] h = refl
    drop-none (suc i) [] h = refl
    drop-none zero (x ∷ xs) h = ground (arith, h)
    drop-none (suc i) (x ∷ xs) h = drop-none i xs (ground (arith, h))

    -- the rounds that are left return what is left
    abbrev Returns : ℕ → Type 0
    Returns n = (s : Scanner A) → length (left s) < n → collect n fetch s ≡ some (left s)

    -- a row of the page that there is
    on_page :
        (n : ℕ) (s : Scanner A) (x : A) (ys : List A)
        → Returns n
        → get_elem? s.items s.index ≡ some x
        → x ∷ left (advance s).1 ≡ ys
        → length ys < suc n
        → after_next (advance s) (collect n fetch) ≡ some ys
    on_page n s x ys ih here e h =
        ap (λ o. add_row o (collect n fetch (advance s).1)) here
        ∙ ap (add_row (some x)) (ih (advance s).1 (omega (arith, h, ap (length {A = A}) e)))
        ∙ ap some e

    -- a page that is fetched
    on_fetch :
        (n : ℕ) (s : Scanner A) (ks : List A)
        → Returns n
        → keep (behind s.cursor) rows ≡ ks
        → length ks < suc n
        → after_next (with_page s (largest 0 (take (suc m) ks), take (suc m) ks)) (collect n fetch)
          ≡ some ks
    on_fetch n s [] ih e h = refl
    on_fetch n s (x ∷ xs) ih e h =
        on_page n
          (record {
            cursor = largest 0 (take (suc m) (x ∷ xs));
            index = 0;
            cur = s.cur;
            items = take (suc m) (x ∷ xs);
          })
          x (x ∷ xs) ih refl (sym (next_page s.cursor x xs e)) h

    -- With more rounds than rows are left, the scanner returns those rows in their order, and ends.
    collect-left : (n : ℕ) → Returns n
    unfolding collect next fetch
    collect-left zero s h = elim h [ ]
    collect-left (suc n) s h = elim (Bool-cases (leb (length s.items) s.index)) [
      | inr more ↦ rw more (
          let (x, here, rest) = drop-eq s.index s.items more in
          on_page n s x (left s) (collect-left n) here
            (sym (ap (λ ys. ys ++ keep (behind s.cursor) rows) rest)) h)
      | inl used ↦ rw used (
          let e : left s ≡ keep (behind s.cursor) rows =
            ap (λ ys. ys ++ keep (behind s.cursor) rows) (drop-none s.index s.items used) in
          on_fetch n s (keep (behind s.cursor) rows) (collect-left n) refl
            (omega (arith, h, ap (length {A = A}) e))
          ∙ ap some (sym e))
    ]

-- A new scanner over rows with ascending, positive ids, with pages of a positive length, returns
-- every row once, in the order of their ids, and ends, in one round more than there are rows.
pub collect-page :
    {A : Type 0} (id : A → ℕ) (m : ℕ) (rows : List A)
    → IsAscending id rows
    → All (λ x. 0 < id x) rows
    → collect (suc (length rows)) (page id (suc m) rows) new_scanner ≡ some rows
unfolding fetch
collect-page id m rows s o =
    let all : keep (behind id 0) rows ≡ rows = keep-eq_self id 0 rows o in
    collect-left id m rows s (suc (length rows)) new_scanner (omega (arith, ap (length) all))
    ∙ ap some all
