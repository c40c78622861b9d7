-- ===== src/Rzset/Rank.antt =====
-- The rank of an element, and ranges by rank.
use redka.Base.{
  not, str_eq, ◌&&◌, ℕ, ℤ, String, Bool, length-keep-congr, true, false, ◌||◌, Option, none, some,
  List, [], ◌∷◌, ◌≡◌, refl, arith, ◌==◌, ==_iff, keep, keep-congr, length, Bool-cases, inl, inr, ap,
  ◌∙◌,
}
use redka.Table
use redka.Core.{Key, AnyValue, is_value_type, Float64, Result, ok, err, not_found, Time, unix_milli}
use redka.Schema.{Db, ZsetRow, find_elem, same_pair, zset_column}
use redka.Schema.Valid.{IsValid}
use redka.Schema.View.{entry}
use redka.Rkey.Owner.{has_id, removes-by_key}
use redka.Rzset.Driver.{SetDriver}
use redka.Rzset.Order.{SortDir, asc, desc, row_le, dir_le, sort_rows, ranked}
use redka.Rzset.{ranked_as, members, get_rank, get_rank_rev, rank_in, found_rank}
use redka.Rzset.View.{bound_at, elem_at, elem_of}
use redka.Rzset.Sorted.{ElemsUnique, find_row, is_before, ranked-sort, ranked-none, find-sort}

module _ (d : SetDriver) where
  row_total : (a b : ZsetRow) → (row_le d a b || row_le d b a) ≡ true
  unfolding row_le
  row_total a b = ground (arith, d.score_total a.score b.score, d.elem_total a.elem b.elem)

  row_trans : (a b c : ZsetRow) → row_le d a b ≡ true → row_le d b c ≡ true → row_le d a c ≡ true
  unfolding row_le
  row_trans a b c p q = ground (
    arith,
    p,
    q,
    d.score_trans a.score b.score c.score,
    d.score_trans b.score c.score a.score,
    d.score_trans c.score a.score b.score,
    d.elem_trans a.elem b.elem c.elem,
  )

  row_antisym : (a b : ZsetRow) → row_le d a b ≡ true → row_le d b a ≡ true → a.elem ≡ b.elem
  unfolding row_le
  row_antisym a b p q = ground (arith, p, q, d.elem_antisym a.elem b.elem)

  pub dir_total : (dir : SortDir) (a b : ZsetRow) → (dir_le d dir a b || dir_le d dir b a) ≡ true
  unfolding dir_le
  dir_total asc a b = row_total a b
  dir_total desc a b = row_total b a

  pub dir_trans :
      (dir : SortDir) (a b c : ZsetRow)
      → dir_le d dir a b ≡ true
      → dir_le d dir b c ≡ true
      → dir_le d dir a c ≡ true
  unfolding dir_le
  dir_trans asc a b c p q = row_trans a b c p q
  dir_trans desc a b c p q = row_trans c b a q p

  pub dir_antisym :
      (dir : SortDir) (a b : ZsetRow)
      → dir_le d dir a b ≡ true
      → dir_le d dir b a ≡ true
      → a.elem ≡ b.elem
  unfolding dir_le
  dir_antisym asc a b p q = row_antisym a b p q
  dir_antisym desc a b p q = row_antisym a b q p

find-keep_id :
    (e : String) (i : ℕ) (zs : List ZsetRow)
    → find_row e (keep (λ z. i == z.key_id) zs) ≡ find_elem i e zs
find-keep_id e i [] = refl
find-keep_id e i (z ∷ zs) = ground (arith, find-keep_id e i zs)

keep_id-ElemsUnique :
    (i : ℕ) (zs : List ZsetRow)
    → Table.IsUnique same_pair zset_column zs
    → ElemsUnique (keep (λ z. i == z.key_id) zs)
keep_id-ElemsUnique i [] u = tt
keep_id-ElemsUnique i (z ∷ zs) u = elim (Bool-cases (i == z.key_id)) [
  | inl mine ↦
      let q : i ≡ z.key_id = (==_iff i z.key_id).0 mine in
      rw mine (
        find-keep_id z.elem i zs ∙ ap (λ j. find_elem j z.elem zs) q ∙ u.0,
        keep_id-ElemsUnique i zs u.1,
      )
  | inr foreign ↦ rw foreign (keep_id-ElemsUnique i zs u.1)
]

keep_none : (zs : List ZsetRow) → keep (λ z. false) zs ≡ []
keep_none [] = refl
keep_none (z ∷ zs) = keep_none zs

module _ (key : String) (now : ℤ) (db : Db) (w : IsValid db) where
  members-eq-keep : members key now db ≡ keep (λ z. has_id (entry key now db) z.key_id) db.zsets
  members-eq-keep =
      keep-congr _ _ db.zsets (λ z. removes-by_key key now db.keys z.key_id w.keys_unique)

  of_owner :
      (o : Option Key) (e : String)
      → (find_row e (keep (λ z. has_id o z.key_id) db.zsets) ≡ elem_of e db o)
        × ElemsUnique (keep (λ z. has_id o z.key_id) db.zsets)
  of_owner none e = rw (keep_none db.zsets) (refl, tt)
  of_owner (some k) e =
      (find-keep_id e k.id db.zsets, keep_id-ElemsUnique k.id db.zsets w.zsets_unique)

  -- The members of a set have different elements, and the one with a given element is the row that
  -- the index finds.
  pub find-members : (e : String) → find_row e (members key now db) ≡ elem_at key e now db
  find-members e = rw members-eq-keep (of_owner (entry key now db) e).0

  pub members-ElemsUnique : ElemsUnique (members key now db)
  members-ElemsUnique = rw members-eq-keep (of_owner (entry key now db) "").1

-- Another member `z` comes before `r` in ascending order: it has a lower score, or the same score and
-- a smaller element.
abbrev pub comes_before : SetDriver → ZsetRow → ZsetRow → Bool
comes_before d r z =
    not (str_eq z.elem r.elem)
    && (not (d.score_le r.score z.score) || (d.score_le z.score r.score && d.elem_le z.elem r.elem))

-- and in descending order: a higher score, or the same score and a larger element
abbrev pub comes_after : SetDriver → ZsetRow → ZsetRow → Bool
comes_after d r z =
    not (str_eq z.elem r.elem)
    && (not (d.score_le z.score r.score) || (d.score_le r.score z.score && d.elem_le r.elem z.elem))

abbrev pub precedes : SetDriver → SortDir → ZsetRow → ZsetRow → Bool
precedes d asc = comes_before d
precedes d desc = comes_after d

-- the rank that an element should have: the number of members before it, in the direction
abbrev pub rank_of : SetDriver → SortDir → String → ℤ → Db → Option ZsetRow → Result (ℕ × Float64)
rank_of d dir key now db none = err not_found
rank_of d dir key now db (some r) =
    ok (length (keep (precedes d dir r) (members key now db)), r.score)

module _ (d : SetDriver) where
  is_before-eq-precedes :
      (dir : SortDir) (r z : ZsetRow) → is_before (dir_le d dir) r z ≡ precedes d dir r z
  unfolding dir_le row_le
  is_before-eq-precedes asc r z = ground (arith, d.score_total r.score z.score)
  is_before-eq-precedes desc r z = ground (arith, d.score_total z.score r.score)

  found_rank-sort :
      (dir : SortDir) (key e : String) (now : ℤ) (db : Db) (o : Option ZsetRow)
      → IsValid db
      → elem_at key e now db ≡ o
      → found_rank (ranked 0 e (sort_rows (dir_le d dir) (members key now db)))
        ≡ rank_of d dir key now db o
  found_rank-sort dir key e now db none w h = ap found_rank (
      ranked-none 0 e (sort_rows (dir_le d dir) (members key now db)) (
        find-sort (dir_le d dir) (dir_total d dir) (dir_trans d dir) (dir_antisym d dir) e
          (members key now db) (members-ElemsUnique key now db w)
        ∙ find-members key now db w e
        ∙ h))
  found_rank-sort dir key e now db (some r) w h =
      ap found_rank (
        ranked-sort (dir_le d dir) (dir_total d dir) (dir_trans d dir) (dir_antisym d dir) e
          (members key now db) r (members-ElemsUnique key now db w)
          (find-members key now db w e ∙ h))
      ∙ ap (λ n. ok (n, r.score))
          (length-keep-congr _ _ (members key now db) (is_before-eq-precedes dir r))

  found_rank-ranked_as :
      (dir : SortDir) (key : String) (o : Option String) (now : ℤ) (db : Db)
      → IsValid db
      → found_rank (ranked_as o (sort_rows (dir_le d dir) (members key now db)))
        ≡ rank_of d dir key now db (bound_at key o now db)
  found_rank-ranked_as dir key none now db w = refl
  found_rank-ranked_as dir key (some e) now db w = found_rank-sort dir key e now db _ w refl

  rank_in-eq-rank_of :
      (dir : SortDir) (key : String) (elem : AnyValue) (t : Time) (db : Db)
      → IsValid db
      → is_value_type elem ≡ true
      → rank_in d dir key elem t db
        ≡ rank_of d dir key (unix_milli t) db (bound_at key (d.elem_code elem) (unix_milli t) db)
  unfolding rank_in
  rank_in-eq-rank_of dir key elem t db w good =
      rw good (found_rank-ranked_as dir key (d.elem_code elem) (unix_milli t) db w)

  -- On valid tables `GetRank` and `GetRankRev` of a value of a good type return, for an element of the
  -- sorted set that the name has at the time, its score and the number of elements of that set that
  -- come before it: those with a lower score, or with the same score and a smaller element; for
  -- `GetRankRev` those with a higher score, or with the same score and a larger element. For any
  -- other element they return `ErrNotFound`.
  pub get_rank-eq-rank_of :
      (key : String) (elem : AnyValue) (t : Time) (db : Db)
      → IsValid db
      → is_value_type elem ≡ true
      → (get_rank d key elem t db
          ≡ rank_of d asc key (unix_milli t) db (bound_at key (d.elem_code elem) (unix_milli t) db))
        × (get_rank_rev d key elem t db
            ≡ rank_of d desc key
                (unix_milli t)
                db
                (bound_at key (d.elem_code elem) (unix_milli t) db))
  unfolding get_rank get_rank_rev
  get_rank-eq-rank_of key elem t db w good =
      (rank_in-eq-rank_of asc key elem t db w good, rank_in-eq-rank_of desc key elem t db w good)
