-- ===== src/Rzset/Inverted.antt =====
-- Deletion by rank where the last rank lies before the first.
use redka.Base.{
  ℕ, zero, suc, ◌-◌, ◌<◌, ◌≤◌, pos, negsuc, sub_ℕ, wrap, wrap_of_IsInt, max_int, Option, List, [],
  ◌∷◌, ◌≡◌, refl, arith, drop, take, keep, ap, ◌∙◌,
}
use redka.Core.{Key}
use redka.Schema.{Db}
use redka.Sqlx.{limit}
use redka.Rzset.Driver.{SetDriver}
use redka.Rzset.Order.{asc, sort_rows, dir_le}
use redka.Rzset.{in_set, delete_rows}
use redka.Rzset.Range.{by_rank, range_rank}
use redka.Rzset.Removal.{delete_in, has_rowid}

slice-inverted : {A : Type 0} (start n : ℕ) (xs : List A) → n ≤ start → drop start (take n xs) ≡ []
slice-inverted zero zero xs h = refl
slice-inverted (suc start) zero xs h = refl
slice-inverted zero (suc n) xs h = absurd (omega (arith, h))
slice-inverted (suc start) (suc n) [] h = refl
slice-inverted (suc start) (suc n) (x ∷ xs) h = slice-inverted start n xs (omega (arith, h))

count-inverted :
    (start stop : ℕ)
    → suc stop < start
    → start ≤ max_int
    → wrap (sub_ℕ (suc stop) start) ≡ negsuc (start - suc stop - 1)
count-inverted start stop h top =
    let e : sub_ℕ (suc stop) start ≡ negsuc (start - suc stop - 1) = ground (arith, h) in
    ap wrap e ∙ wrap_of_IsInt (negsuc (start - suc stop - 1)) (omega (arith, h, top))

-- `DeleteWith … ByRank` with non-negative ranks that are out of order by more than one: the range of
-- these ranks is empty, but every element of the set from the first rank on is deleted, since a
-- negative `limit` is none.
pub delete_in-inverted :
    (d : SetDriver) (start stop : ℕ) (owner : Option Key) (db : Db)
    → suc stop < start
    → start ≤ max_int
    → (range_rank d asc (pos start) (pos stop) (keep (in_set owner) db.zsets) ≡ [])
      × (delete_in d (by_rank (pos start) (pos stop)) owner db
          ≡ delete_rows
              (has_rowid (drop start (sort_rows (dir_le d asc) (keep (in_set owner) db.zsets))))
              db)
unfolding range_rank delete_in
delete_in-inverted d start stop owner db h top =
    let sorted = sort_rows (dir_le d asc) (keep (in_set owner) db.zsets) in
    (
      slice-inverted start (suc stop) sorted (omega (arith, h)),
      ap (λ n. delete_rows (has_rowid (limit n (drop start sorted))) db)
          (count-inverted start stop h top),
    )
