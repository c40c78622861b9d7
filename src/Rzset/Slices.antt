-- ===== src/Rzset/Slices.antt =====
-- Ranges of a sorted set by rank, compared with the rank of an element.
use redka.Base.{
  drop, get_elem?, ℕ, zero, suc, ◌+◌, ◌-◌, ◌≤◌, ◌<◌, pos, String, Bool, true, Option, none, some,
  List, [], ◌∷◌, ◌≡◌, refl, arith, str_eq, All, take, map, Bool-cases, inl, inr, ap, ◌∙◌, sym,
  eq_iff,
}
use mathlib.Core.Option
use redka.Core.{AnyValue, is_value_type, Float64, ok, Time, unix_milli}
use redka.Schema.{Db, ZsetRow}
use redka.Rzset.Driver.{SetDriver}
use redka.Rzset.Order.{asc, dir_le, sort_rows, ranked}
use redka.Rzset.{SetItem, scan_item, members, get_rank, rank_in, found_rank}
use redka.Rzset.Range.{range, run_range, range_rows, range_rank, slice}

get_elem?-map :
    {A B : Type 0} (f : A → B) (xs : List A) (i : ℕ)
    → get_elem? (map f xs) i ≡ Option.map f (get_elem? xs i)
get_elem?-map f [] i = refl
get_elem?-map f (x ∷ xs) zero = refl
get_elem?-map f (x ∷ xs) (suc i) = get_elem?-map f xs i

zero_add : (n : ℕ) → n ≡ 0 + n
zero_add n = omega arith

get_elem?-drop :
    {A : Type 0} (xs : List A) (n i : ℕ) → get_elem? (drop n xs) i ≡ get_elem? xs (n + i)
get_elem?-drop xs zero i = ap (get_elem? xs) (zero_add i)
get_elem?-drop [] (suc n) i = refl
get_elem?-drop (x ∷ xs) (suc n) i =
    let shifted : suc (n + i) ≡ suc n + i = omega arith in
    get_elem?-drop xs n i ∙ ap (get_elem? (x ∷ xs)) shifted

get_elem?-take :
    {A : Type 0} (xs : List A) (n i : ℕ) → i < n → get_elem? (take n xs) i ≡ get_elem? xs i
get_elem?-take xs zero i h = elim h [ ]
get_elem?-take [] (suc n) i h = refl
get_elem?-take (x ∷ xs) (suc n) zero h = refl
get_elem?-take (x ∷ xs) (suc n) (suc i) h = get_elem?-take xs n i (omega arith)

get_elem?-slice :
    {A : Type 0} (xs : List A) (start stop n : ℕ)
    → start ≤ n
    → n ≤ stop
    → get_elem? (slice start stop xs) (n - start) ≡ get_elem? xs n
get_elem?-slice xs start stop n lo hi =
    let back : start + (n - start) ≡ n = omega arith in
    get_elem?-drop (take (suc stop) xs) start (n - start)
    ∙ ap (get_elem? (take (suc stop) xs)) back
    ∙ get_elem?-take xs (suc stop) n (omega arith)

zero_right : {m n : ℕ} → m ≡ n → n ≡ m + 0
zero_right h = omega arith

-- the row that has a rank, which counts from `m`
get_elem?-ranked :
    (m : ℕ) (e : String) (zs : List ZsetRow) (n : ℕ) (r : ZsetRow)
    → ranked m e zs ≡ some (n, r)
    → (k : ℕ) × (n ≡ m + k) × (get_elem? zs k ≡ some r) × (str_eq r.elem e ≡ true)
unfolding ranked
get_elem?-ranked m e [] n r h = cc
get_elem?-ranked m e (z ∷ zs) n r h = elim (Bool-cases (str_eq z.elem e)) [
  | inl here ↦
      let q : some (m, z) ≡ some (n, r) = sym (rw here) ∙ h in
      let first : m ≡ n = cc q in
      let same : z ≡ r = cc q in
      (0, zero_right first, ap some same, ap (λ (y : ZsetRow). str_eq y.elem e) (sym same) ∙ here)
  | inr there ↦
      let q : ranked (suc m) e zs ≡ some (n, r) = sym (rw there) ∙ h in
      let (k, at, row, named) = get_elem?-ranked (suc m) e zs n r q in
      (suc k, omega (arith, at), row, named)
]

ranked_row :
    (o : Option (ℕ × ZsetRow)) (n : ℕ) (x : Float64)
    → found_rank o ≡ ok (n, x)
    → (r : ZsetRow) × (o ≡ some (n, r)) × (r.score ≡ x)
ranked_row none n x h = cc
ranked_row (some (m, r)) n x h = let first : m ≡ n = cc h in (r, ap (λ i. some (i, r)) first, cc h)

module _ (d : SetDriver) where
  item_of :
      (e : String) (r : ZsetRow) (x : Float64)
      → r.elem ≡ e
      → r.score ≡ x
      → ◌≡◌ {A = Option SetItem}
          (some (scan_item d r))
          (some (record { id = 0; elem = d.elem_bytes e; score = x }))
  item_of e r x p q =
      ap (λ e'. some (record { id = 0; elem = d.elem_bytes e'; score = r.score })) p
      ∙ ap (λ y. some (record { id = 0; elem = d.elem_bytes e; score = y })) q

  -- `Range` between two ranks has, at the right place, every element whose rank, as `GetRank` returns
  -- it, lies between them, and with its score.
  pub range-get_rank :
      (key : String) (elem : AnyValue) (e : String) (start stop n : ℕ) (x : Float64) (t : Time)
      (db : Db)
      → is_value_type elem ≡ true
      → d.elem_code elem ≡ some e
      → get_rank d key elem t db ≡ ok (n, x)
      → start ≤ n
      → n ≤ stop
      → get_elem? (range d key (pos start) (pos stop) t db) (n - start)
        ≡ some (record { id = 0; elem = d.elem_bytes e; score = x })
  unfolding get_rank rank_in range run_range range_rows range_rank
  range-get_rank key elem e start stop n x t db good code h lo hi =
      let sorted = sort_rows (dir_le d asc) (members key (unix_milli t) db) in
      let (r, at, score) = ranked_row (ranked 0 e sorted) n x (sym (rw (good, code)) ∙ h) in
      let (k, place, row, named) = get_elem?-ranked 0 e sorted n r at in
      let here : get_elem? sorted n ≡ some r = ap (get_elem? sorted) (omega (arith, place)) ∙ row in
      get_elem?-map (scan_item d) (slice start stop sorted) (n - start)
      ∙ ap (Option.map (scan_item d)) (get_elem?-slice sorted start stop n lo hi ∙ here)
      ∙ item_of e r x ((eq_iff r.elem e).0 named) score

-- `RangeCmd.Run` by rank in descending direction: the rows
module _ (le : ZsetRow → ZsetRow → Bool) where
  -- the order the other way round
  abbrev pub flipped : ZsetRow → ZsetRow → Bool
  flipped a b = le b a

  All-drop : (P : ZsetRow → Type 0) (n : ℕ) (zs : List ZsetRow) → All P zs → All P (drop n zs)
  All-drop P zero zs o = o
  All-drop P (suc n) [] o = tt
  All-drop P (suc n) (z ∷ zs) o = All-drop P n zs o.1
