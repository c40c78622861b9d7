-- ===== src/Rzset/Invariant.antt =====
-- The operations of the sorted set repository keep the tables valid.
use redka.Base.{
  ℕ, suc, pos, negsuc, String, Bool, true, not, Option, none, some, List, [], ◌∷◌, ◌-◌, ◌≡◌, arith,
  ◌==◌, ==_iff, Bool-cases, inl, inr, Option-cases, All-keep, first, length,
}
use redka.Table.{IsUnique-keep}
use redka.Core.{
  Key, AnyValue, is_value_type, Float64, Result, ok, Time, type_sorted_set, unix_milli,
}
use redka.Schema.{Db, ZsetRow, find_key, upsert_key, same_pair, zset_column}
use redka.Schema.Valid.{IsValid, LeavesValid, owner, same_pair_iff}
use redka.Schema.Upsert.{IsUpserted}
use redka.Sqlx.{Action, exec, ◌>>◌, pure, continue, sure}
use redka.Sqlx.Keeps.{Keeps, if-IsValid, bind-Keeps, then-Keeps, pure-Keeps}
use redka.Rkey.{by_key}
use redka.Rzset.Driver.{SetDriver}
use redka.Rzset.{
  put_key, sql_put, sql_incr, keys_of, add_elem, add, add_all, add_many, incr, delete, delete_rows,
  query, set_key, set_change, count, raised,
}
use redka.Rzset.Write.{put_key-fits, put_key-mismatch, with_elem-IsStored, with_elem}
use redka.Rzset.Range.{Filter, unfiltered, by_rank, by_score}
use redka.Rzset.Removal.{DeleteCmd, delete_in, run_delete}

module _ (key : String) (t : Time) (db : Db) (w : IsValid db) where
  -- what follows the write of the row of `rkey` has only to keep the tables that it leaves
  put_key-then :
      {A : Type 0} (f : Action A)
      → ((mid : Db)
          → upsert_key (set_key key t) (set_change t) db ≡ ok mid
          → IsUpserted (set_key key t) (set_change t) db mid
          → LeavesValid (f mid))
      → LeavesValid ((put_key key t >> f) db)
  put_key-then {A} f h = elim (Option-cases (find_key key db.keys)) [
    | inl free ↦ fitting (λ old e. cc (free, e))
    | inr (old, e) ↦ elim (Bool-cases (old.type_id == type_sorted_set)) [
      | inl same ↦ fitting (λ old' e'. ground (arith, e, e', same))
      | inr differ ↦
          rw
            (put_key-mismatch key t db w old e
              (λ p. cc (differ, (==_iff old.type_id type_sorted_set).1 p)))
            w
    ]
  ]
    where
      fitting :
          ((old : Key) → find_key key db.keys ≡ some old → old.type_id ≡ type_sorted_set)
          → LeavesValid {A = Result A} (continue (put_key key t db) (λ x. f))
      fitting fits = let (mid, up, e, u) = put_key-fits key t db w fits in rw e (h mid up u)

  put-IsValid :
      (o : Option String) (score : Option Float64)
      → LeavesValid ((put_key key t >> exec (sql_put key o score)) db)
  unfolding sql_put
  put-IsValid none score = put_key-then (exec (sql_put key none score)) (λ mid up u. u.valid)
  put-IsValid (some e) none =
      put_key-then (exec (sql_put key (some e) none)) (λ mid up u. rw (u.found, sql_put) u.valid)
  put-IsValid (some e) (some x) =
      put_key-then (exec (sql_put key (some e) (some x)))
        (λ mid up u. rw (u.found, sql_put) (with_elem-IsStored key t db w mid e x up).valid)

  module _ (d : SetDriver) where
    raised-IsValid :
        (mid : Db) (e : String) (o : Option Float64)
        → upsert_key (set_key key t) (set_change t) db ≡ ok mid
        → IsValid mid
        → LeavesValid (raised o (λ x. with_elem key t e x db mid) mid)
    raised-IsValid mid e none up v = v
    raised-IsValid mid e (some x) up v = (with_elem-IsStored key t db w mid e x up).valid

    raise-IsValid :
        (o : Option String) (delta : Float64)
        → LeavesValid ((put_key key t >> sql_incr d key o delta) db)
    unfolding sql_incr
    raise-IsValid none delta = put_key-then (sql_incr d key none delta) (λ mid up u. u.valid)
    raise-IsValid (some e) delta =
        put_key-then (sql_incr d key (some e) delta)
          (λ mid up u. rw (u.found, sql_incr) (raised-IsValid mid e _ up u.valid))

-- A deletion of rows of the sorted sets keeps the tables valid.
delete_rows-IsValid :
    (gone : ZsetRow → Bool) (db : Db) → IsValid db → LeavesValid (delete_rows gone db)
delete_rows-IsValid gone db w = record {
  keys_unique = w.keys_unique;
  ids_unique = w.ids_unique;
  strings_unique = w.strings_unique;
  hashes_unique = w.hashes_unique;
  zsets_unique = IsUnique-keep same_pair same_pair_iff zset_column _ db.zsets w.zsets_unique;
  strings_owned = w.strings_owned;
  hashes_owned = w.hashes_owned;
  zsets_owned =
      All-keep (λ (z : ZsetRow). owner type_sorted_set db.keys z.key_id ≡ true) _ db.zsets
        w.zsets_owned;
}

module _ (d : SetDriver) where
  add_elem-Keeps :
      (key : String) (elem : AnyValue) (score : Float64) (t : Time)
      → Keeps (add_elem d key elem score t)
  unfolding add_elem
  add_elem-Keeps key elem score t db w =
      if-IsValid (not (is_value_type elem)) _ _ w
        (put-IsValid key t db w (d.elem_code elem) (d.score_of score))

  query-Keeps : {A : Type 0} (f : Db → Result A) → Keeps (query f)
  query-Keeps f db w = w

  pub add-Keeps :
      (key : String) (elem : AnyValue) (score : Float64) (t t' : Time)
      → Keeps (add d key elem score t t')
  unfolding add
  add-Keeps key elem score t t' =
      bind-Keeps (query (count d key (elem ∷ []) t))
        (λ n. add_elem d key elem score t' >> pure (n == 0))
        (query-Keeps (count d key (elem ∷ []) t))
        (λ n.
          then-Keeps (add_elem d key elem score t') (pure (n == 0))
            (add_elem-Keeps key elem score t') (pure-Keeps (n == 0)))

  add_all-Keeps :
      (key : String) (items : List (AnyValue × Float64)) (times : ℕ → Time)
      → Keeps (add_all d key items times)
  unfolding add_all
  add_all-Keeps key [] times = pure-Keeps tt
  add_all-Keeps key ((elem, score) ∷ items) times =
      then-Keeps (add_elem d key elem score (times 0)) (add_all d key items (λ i. times (suc i)))
        (add_elem-Keeps key elem score (times 0)) (add_all-Keeps key items (λ i. times (suc i)))

  pub add_many-Keeps :
      (key : String) (items : List (AnyValue × Float64)) (t : Time) (times : ℕ → Time)
      → Keeps (add_many d key items t times)
  unfolding add_many
  add_many-Keeps key items t times =
      bind-Keeps (query (count d key (keys_of d items) t))
        (λ n. add_all d key items times >> pure (length items - n))
        (query-Keeps (count d key (keys_of d items) t))
        (λ n.
          then-Keeps (add_all d key items times) (pure (length items - n))
            (add_all-Keeps key items times) (pure-Keeps (length items - n)))

  pub incr-Keeps :
      (key : String) (elem : AnyValue) (delta : Float64) (t : Time)
      → Keeps (incr d key elem delta t)
  unfolding incr
  incr-Keeps key elem delta t db w =
      if-IsValid (not (is_value_type elem)) _ _ w
        (raise-IsValid key t db w d (d.elem_code elem) delta)

  pub delete-Keeps :
      (key : String) (elems : List AnyValue) (t : Time) → Keeps (sure (delete d key elems t))
  unfolding delete
  delete-Keeps key elems t db w = delete_rows-IsValid _ db w

  delete_in-IsValid :
      (f : Filter) (owner : Option Key) (db : Db)
      → IsValid db
      → LeavesValid (delete_in d f owner db)
  unfolding delete_in
  delete_in-IsValid unfiltered owner db w = w
  delete_in-IsValid (by_rank (pos start) (pos stop)) owner db w = delete_rows-IsValid _ db w
  delete_in-IsValid (by_rank (pos start) (negsuc stop)) owner db w = w
  delete_in-IsValid (by_rank (negsuc start) stop) owner db w = w
  delete_in-IsValid (by_score start stop) owner db w = delete_rows-IsValid _ db w

  pub run_delete-Keeps : (c : DeleteCmd) (t : Time) → Keeps (sure (run_delete d c t))
  unfolding run_delete
  run_delete-Keeps c t db w =
      delete_in-IsValid c.filter (first (by_key c.key (unix_milli t)) db.keys) db w
