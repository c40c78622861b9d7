-- ===== src/Rzset/Tests.antt =====
-- Tests and witnesses of the sorted sets.
use redka.Base.{
  List, String, pos, [], ◌∷◌, none, some, ◌≡◌, refl, arith, is_some, not, get_elem?, drop, keep,
  str_eq, ◌&&◌, if◌then◌else◌,
}
use redka.Core.{is_value_type, str, ok, err, not_found, key_type, sql, unix_milli}
use redka.Schema.{ZsetRow}
use redka.Schema.Valid.{IsValid}
use redka.Schema.View.{not_ended}
use redka.Sqlx.{TxOutcome}
use redka.Samples.{early, late}
use redka.Rzset.Order.{asc, desc, dir_le, row_le, sort_rows, insert_row, ranked}
use redka.Rzset.Incr.{get_score-incr}
use redka.Rzset.{
  same_elem, add, incr, get_score, get_rank, get_rank_rev, rank_in, in_set, delete_rows,
}
use redka.Rzset.Range.{range, range_rank, by_rank}
use redka.Rzset.Removal.{delete_in, has_rowid, delete_with, with_rank}
use redka.Rzset.Combine.{
  inter, union, run_combine, combine_with, with_dest, combined, scored, elems_in, elems_of, having,
  distinct_keys, store,
}
use redka.Rzset.View.{elem_at, bound_at}
use redka.Rzset.Score.{get_score-add}
use redka.Rzset.Rank.{rank_of, get_rank-eq-rank_of}
use redka.Rzset.Slices.{range-get_rank}
use redka.Rzset.Stored.{store-taken}
use redka.Rzset.Inverted.{delete_in-inverted}
use redka.Rzset.Sorted.{ElemsUnique, find_row}
use redka.Rzset.Union.{union_lem, any_has}
use redka.Rzset.Inter.{inter_lem, all_has}
use redka.Rzset.Samples.{set_driver, races, races-IsValid, old_race_key, race_key, text_le}
use redka.Rzset.Updates.{updates-IsValid}
use redka.Rzset.Database

-- "bob" has the lowest score, and "ann" comes before "cyd"
rank-ann : get_rank set_driver "race" (str "ann") early races ≡ ok (1, 20)
unfolding is_value_type get_rank rank_in sort_rows ranked dir_le row_le text_le insert_row
rank-ann = refl

rank_rev-ann : get_rank_rev set_driver "race" (str "ann") early races ≡ ok (1, 20)
unfolding is_value_type get_rank_rev rank_in sort_rows ranked dir_le row_le text_le insert_row
rank_rev-ann = refl

inter-bob :
    run_combine set_driver inter (combine_with ("race" ∷ "old" ∷ [])) early races
    ≡ ok (record { id = 0; elem = "bob"; score = 40 } ∷ [])
unfolding unix_milli run_combine combined scored elems_in elems_of having distinct_keys sort_rows
    insert_row dir_le row_le
inter-bob = refl

get_score-add_example :
    ((add set_driver "race" (str "dan") 15 early early races).0
      ≡ ok (not (is_some (elem_at "race" "dan" (unix_milli early) races))))
    × IsValid (add set_driver "race" (str "dan") 15 early early races).1
    × (get_score set_driver "race"
          (str "ann")
          late
          (add set_driver "race" (str "dan") 15 early early races).1
        ≡ (if str_eq "race" "race" && same_elem (some "ann") "dan"
            then (if not_ended "race" races (unix_milli late) then ok 15 else err not_found)
            else get_score set_driver "race" (str "ann") late races))
unfolding is_value_type
get_score-add_example =
    get_score-add set_driver "race" (str "dan") "dan" 15 15 early early races "race" (str "ann")
      late races-IsValid (λ old f. ground arith) refl refl refl refl

get_rank-eq-rank_of_example :
    (get_rank set_driver "race" (str "cyd") early races
      ≡ rank_of set_driver asc "race"
          (unix_milli early)
          races
          (bound_at "race" (some "cyd") (unix_milli early) races))
    × (get_rank_rev set_driver "race" (str "cyd") early races
        ≡ rank_of set_driver desc "race"
            (unix_milli early)
            races
            (bound_at "race" (some "cyd") (unix_milli early) races))
unfolding is_value_type
get_rank-eq-rank_of_example =
    get_rank-eq-rank_of set_driver "race" (str "cyd") early races races-IsValid refl

range-get_rank_example :
    get_elem? (range set_driver "race" (pos 1) (pos 2) early races) 0
    ≡ some (record { id = 0; elem = "ann"; score = 20 })
unfolding is_value_type
range-get_rank_example =
    range-get_rank set_driver "race" (str "ann") "ann" 1 2 1 20 early races refl refl rank-ann
      (omega arith) (omega arith)

store-taken_example :
    (store set_driver union (with_dest "old" (combine_with ("race" ∷ []))) late late races).0
    ≡ err key_type
unfolding unix_milli
store-taken_example =
    store-taken set_driver union (with_dest "old" (combine_with ("race" ∷ []))) late late races
      old_race_key races-IsValid refl refl

delete_in-inverted_example :
    (range_rank set_driver asc (pos 2) (pos 0) (keep (in_set (some race_key)) races.zsets) ≡ [])
    × (delete_in set_driver (by_rank (pos 2) (pos 0)) (some race_key) races
        ≡ delete_rows
            (has_rowid (
              drop 2
                (sort_rows (dir_le set_driver asc) (keep (in_set (some race_key)) races.zsets))))
            races)
delete_in-inverted_example =
    delete_in-inverted set_driver 2 0 (some race_key) races (omega arith) (omega arith)

abbrev failing : TxOutcome
failing = record { begin = none; commit = some (sql "disk full") }

updates-IsValid_example :
    IsValid (Database.add set_driver failing "race" (str "dan") 7 early early races).1
    × IsValid
        (Database.add_many set_driver failing "race"
          ((str "dan", 1) ∷ (str "bob", 2) ∷ [])
          early
          (λ i. early)
          races).1
    × IsValid (Database.delete set_driver failing "race" (str "ann" ∷ []) early races).1
    × IsValid
        (Database.delete_with set_driver failing
          (with_rank (pos 0) (pos 1) (delete_with "race"))
          early
          races).1
    × IsValid (Database.incr set_driver failing "race" (str "dan") 7 early races).1
    × IsValid
        (Database.store set_driver failing union
          (with_dest "sum" (combine_with ("race" ∷ "old" ∷ [])))
          early
          early
          races).1
updates-IsValid_example =
    updates-IsValid set_driver failing "race" (str "dan") (str "ann" ∷ [])
      ((str "dan", 1) ∷ (str "bob", 2) ∷ []) 7 (with_rank (pos 0) (pos 1) (delete_with "race"))
      union (with_dest "sum" (combine_with ("race" ∷ "old" ∷ []))) early early (λ i. early) races
      races-IsValid

abbrev both : List String
both = "race" ∷ "old" ∷ []

abbrev total_bob : ZsetRow
total_bob = record { rowid = 0; key_id = 0; elem = "bob"; score = 40 }

abbrev united : List ZsetRow
united =
    record { rowid = 0; key_id = 0; elem = "ann"; score = 20 }
    ∷ record { rowid = 0; key_id = 0; elem = "cyd"; score = 20 }
    ∷ total_bob
    ∷ []

union_lem_example :
    (is_some (find_row "cyd" united) ≡ any_has both "cyd" (unix_milli early) races)
    × ElemsUnique united
unfolding unix_milli combined scored elems_in having elems_of sort_rows insert_row dir_le row_le
    text_le
union_lem_example =
    union_lem set_driver (combine_with both) early races united "cyd" races-IsValid refl

inter_lem_example :
    (is_some (find_row "cyd" (total_bob ∷ [])) ≡ (
      any_has both "cyd" (unix_milli early) races && all_has both "cyd" (unix_milli early) races))
    × ElemsUnique (total_bob ∷ [])
unfolding unix_milli combined scored elems_in having elems_of distinct_keys sort_rows insert_row
    dir_le row_le
inter_lem_example =
    inter_lem set_driver (combine_with both) early races (total_bob ∷ []) "cyd" races-IsValid
      (refl, (refl, tt)) refl

get_score-incr_example :
    ((incr set_driver "race" (str "bob") 5 early races).0 ≡ ok 15)
    × IsValid (incr set_driver "race" (str "bob") 5 early races).1
    × (get_score set_driver "race"
          (str "bob")
          late
          (incr set_driver "race" (str "bob") 5 early races).1
        ≡ (if str_eq "race" "race" && same_elem (some "bob") "bob"
            then (if not_ended "race" races (unix_milli late) then ok 15 else err not_found)
            else get_score set_driver "race" (str "bob") late races))
unfolding is_value_type
get_score-incr_example =
    get_score-incr set_driver "race" (str "bob") "bob" 5 15 early races "race" (str "bob") late
      races-IsValid (λ old f. ground arith) refl refl refl refl
