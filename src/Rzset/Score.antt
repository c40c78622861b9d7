-- ===== src/Rzset/Score.antt =====
-- ZADD as a reader sees it, and the score that is found after a write.
use redka.Base.{
  ℕ, ℤ, String, true, false, ◌&&◌, not, Option, none, some, List, [], ◌∷◌, ◌≡◌, ◌≢◌, refl, arith,
  ◌==◌, ==_iff, str_eq, eq_iff, is_some, ltb, keep, length, length-keep-congr, All, if◌then◌else◌,
  Bool-cases, inl, inr, ap, ◌∙◌, Option-cases, sym, subst,
}
use mathlib.Core.Option
use redka.Core.{
  Key, AnyValue, is_value_type, Float64, not_found, ok, err, Time, unix_milli, type_sorted_set,
}
use redka.Schema.{null_error, Db, ZsetRow, live, find_key, find_elem, next_id}
use redka.Schema.Valid.{IsValid, LeavesValid, owner, of_type, find_id-next_id}
use redka.Schema.View.{not_ended, ids_differ}
use redka.Sqlx.{continue-pure, TxOutcome, exec_tx, exec_tx-err}
use redka.Rkey.{is_in}
use redka.Rkey.Expiry.{count_pos}
use redka.Rzset.Driver.{SetDriver}
use redka.Rzset.{
  same_elem, with_code, among_elems, incr, sql_incr, all_elems, add, add_elem, sql_put, count,
  get_score, found_score, of_key,
}
use redka.Rzset.View.{elem_at, bound_at, first-bound_at, get_score-eq-elem_at}
use redka.Rzset.Write.{IsStored, stored_row, with_elem-IsStored, put_key-fits}

-- the name may hold a sorted set: it has no row, live or expired, of another type
abbrev pub Fits : String → Db → Type 0
Fits key db = (old : Key) → find_key key db.keys ≡ some old → old.type_id ≡ type_sorted_set

ok_of_score :
    (o : Option ZsetRow) (v : Float64)
    → Option.map (λ (h : ZsetRow). h.score) o ≡ some v
    → found_score o ≡ ok v
ok_of_score none v e = cc
ok_of_score (some h) v e = cc

-- no elem belongs to an id that has no key
pub unowned :
    (ks : List Key) (hs : List ZsetRow) (i : ℕ) (g : String)
    → All (λ (h : ZsetRow). owner type_sorted_set ks h.key_id ≡ true) hs
    → owner type_sorted_set ks i ≡ false
    → find_elem i g hs ≡ none
unowned ks [] i g o n = refl
unowned ks (h ∷ hs) i g o n = elim (Bool-cases (h.key_id == i)) [
  | inl same ↦
      let e : h.key_id ≡ i = (==_iff h.key_id i).0 same in
      cc (o.0, n, ap (owner type_sorted_set ks) e)
  | inr differ ↦ rw differ (unowned ks hs i g o.1 n)
]

module _ (key : String) (t : Time) (f : String) (v : Float64) (db db' : Db) (w : IsValid db)
    (s : IsStored key (stored_row key t db) f v db db') where
  live-row : (now : ℤ) → live now (stored_row key t db) ≡ not_ended key db now
  live-row now = ground arith

  -- the other elems of the row
  row_elem :
      (now : ℤ) (g : String)
      → not_ended key db now ≡ true
      → find_elem (stored_row key t db).id g db.zsets ≡ elem_at key g now db
  row_elem now g lasting = elim (Option-cases (find_key key db.keys)) [
    | inl free ↦
        let n : owner type_sorted_set db.keys (next_id db.keys) ≡ false =
          ap (of_type type_sorted_set) (find_id-next_id db.keys) in
        let new : (stored_row key t db).id ≡ next_id db.keys = ground (arith, free) in
        ap (λ i. find_elem i g db.zsets) new
        ∙ unowned db.keys db.zsets (next_id db.keys) g w.zsets_owned n
        ∙ rw free
    | inr (old, e) ↦
        let alive : live now old ≡ true = ground (arith, e, lasting) in
        let same : (stored_row key t db).id ≡ old.id = ground (arith, e) in
        ap (λ i. find_elem i g db.zsets) same ∙ rw e (rw alive)
  ]

  get-same_name :
      (g : String) (t' : Time)
      → found_score (elem_at key g (unix_milli t') db') ≡ (
          if str_eq f g
          then (if not_ended key db (unix_milli t') then ok v else err not_found)
          else found_score (elem_at key g (unix_milli t') db))
  get-same_name g t' = elim (Bool-cases (not_ended key db (unix_milli t'))) [
    | inl lasting ↦ rw s.found (
        rw (live-row (unix_milli t') ∙ lasting) (elim (Bool-cases (str_eq f g)) [
          | inl same ↦
              rw (same, lasting)
                (ok_of_score _ v (
                  ap
                    (λ h.
                      Option.map (λ (h : ZsetRow). h.score)
                        (find_elem (stored_row key t db).id h db'.zsets))
                    (sym ((eq_iff f g).0 same))
                  ∙ s.score))
          | inr other ↦ rw other (
              ap found_score (
                s.other_elems (stored_row key t db).id g (ground (arith, other))
                ∙ row_elem (unix_milli t') g lasting))
        ]))
    | inr over ↦ rw s.found (
        rw (live-row (unix_milli t') ∙ over) (
          rw over (elim (Option-cases (find_key key db.keys)) [
            | inl free ↦ ground (arith, free, over)
            | inr (old, e) ↦
                let dead : live (unix_milli t') old ≡ false = ground (arith, e, over) in
                rw e (rw dead (ground arith))
          ])))
  ]

  get-other_name : (j g : String) (now : ℤ) → key ≢ j → elem_at j g now db' ≡ elem_at j g now db
  get-other_name j g now ne = elim (Option-cases (find_key j db.keys)) [
    | inl free ↦ rw (s.others j ne) (rw free)
    | inr (r, e) ↦
        let e' : find_key j db'.keys ≡ some r = s.others j ne ∙ e in
        let apart : (stored_row key t db).id ≢ r.id =
          ids_differ db' key j (stored_row key t db) r s.valid s.found e' ne in
        rw (e', e)
          (elim (Bool-cases (live now r)) [
            | inl alive ↦ rw alive (s.other_elems r.id g (ground (arith, apart)))
            | inr dead ↦ rw dead
          ])
  ]

  -- the score of an element that is found after a write
  pub score_at-IsStored :
      (j g : String) (t' : Time)
      → found_score (elem_at j g (unix_milli t') db') ≡ (
          if str_eq key j && str_eq f g
          then (if not_ended key db (unix_milli t') then ok v else err not_found)
          else found_score (elem_at j g (unix_milli t') db))
  score_at-IsStored j g t' = elim (Bool-cases (str_eq key j)) [
    | inl same ↦ rw same (
        let e : key ≡ j = (eq_iff key j).0 same in
        ap (λ n. found_score (elem_at n g (unix_milli t') db')) (sym e)
        ∙ get-same_name g t'
        ∙ ap
            (λ r.
              if str_eq f g
              then (if not_ended key db (unix_milli t') then ok v else err not_found)
              else r)
            (ap (λ n. found_score (elem_at n g (unix_milli t') db)) e))
    | inr other ↦
        rw other (
          ap found_score (get-other_name j g (unix_milli t') (λ p. cc (other, (eq_iff key j).1 p))))
  ]

  -- and of what is bound as an element
  pub bound_score-IsStored :
      (j : String) (o : Option String) (t' : Time)
      → found_score (bound_at j o (unix_milli t') db') ≡ (
          if str_eq key j && same_elem o f
          then (if not_ended key db (unix_milli t') then ok v else err not_found)
          else found_score (bound_at j o (unix_milli t') db))
  bound_score-IsStored j none t' = ground arith
  bound_score-IsStored j (some g) t' = score_at-IsStored j g t'

one_code : (o : Option String) (x : String) → is_in (with_code o []) x ≡ same_elem o x
one_code none x = refl
one_code (some e) x = ground (arith, eq_iff e x, eq_iff x e)

module _ (d : SetDriver) where
  -- the number of rows that `count` finds for one element
  abbrev found_rows : String → AnyValue → Time → Db → ℕ
  found_rows key elem t db =
      length (keep (λ z. of_key key (unix_milli t) db z && among_elems d (elem ∷ []) z) db.zsets)

  count_one :
      (key : String) (elem : AnyValue) (t : Time) (db : Db)
      → is_value_type elem ≡ true
      → count d key (elem ∷ []) t db ≡ ok (found_rows key elem t db)
  unfolding count all_elems
  count_one key elem t db good = rw good

  found_rows-bound_at :
      (key : String) (elem : AnyValue) (t : Time) (db : Db)
      → IsValid db
      → (found_rows key elem t db == 0)
        ≡ not (is_some (bound_at key (d.elem_code elem) (unix_milli t) db))
  found_rows-bound_at key elem t db v =
      let e : ltb 0 (found_rows key elem t db)
          ≡ is_some (bound_at key (d.elem_code elem) (unix_milli t) db) =
        ap (ltb 0) (
          length-keep-congr _ _ db.zsets (λ z.
            ap (λ b. of_key key (unix_milli t) db z && b) (one_code (d.elem_code elem) z.elem)))
        ∙ count_pos (λ z. of_key key (unix_milli t) db z && same_elem (d.elem_code elem) z.elem)
            db.zsets
        ∙ ap is_some (first-bound_at key (d.elem_code elem) (unix_milli t) db v) in
      ground (arith, e)

  -- what `add` leaves
  add_elem-IsStored :
      (key : String) (elem : AnyValue) (e : String) (x y : Float64) (t : Time) (db : Db)
      → IsValid db
      → Fits key db
      → is_value_type elem ≡ true
      → d.elem_code elem ≡ some e
      → d.score_of x ≡ some y
      → ((add_elem d key elem x t db).0 ≡ ok tt)
        × IsStored key (stored_row key t db) e y db (add_elem d key elem x t db).1
  unfolding add_elem sql_put
  add_elem-IsStored key elem e x y t db w fits good code s =
      let (mid, up, done, u) = put_key-fits key t db w fits in
      rw (good, code, s)
        (rw done (rw (u.found, sql_put) (refl, with_elem-IsStored key t db w mid e y up)))

  -- ZADD of an element of a good type that is not bound as a null, with a score that is not a NaN, on
  -- valid tables where the name has no row of another type: `Add` returns whether the sorted set that
  -- the name has lacked the element, the tables stay valid, and afterwards `GetScore` of a value of a
  -- good type returns, for this name and element, the stored score for as long as the row that the
  -- name had lasts (always, if it had none), and for every other name or element what it did.
  pub get_score-add :
      (key : String) (elem : AnyValue) (e : String) (x y : Float64) (t t' : Time) (db : Db)
      (j : String) (elem' : AnyValue) (now : Time)
      → IsValid db
      → Fits key db
      → is_value_type elem ≡ true
      → is_value_type elem' ≡ true
      → d.elem_code elem ≡ some e
      → d.score_of x ≡ some y
      → ((add d key elem x t t' db).0 ≡ ok (not (is_some (elem_at key e (unix_milli t) db))))
        × LeavesValid (add d key elem x t t' db)
        × (get_score d j elem' now (add d key elem x t t' db).1 ≡ (
            if str_eq key j && same_elem (d.elem_code elem') e
            then (if not_ended key db (unix_milli now) then ok y else err not_found)
            else get_score d j elem' now db))
  unfolding add
  get_score-add key elem e x y t t' db j elem' now w fits good good' code s =
      let (done, st) = add_elem-IsStored key elem e x y t' db w fits good code s in
      let (result, tables) =
        continue-pure (add_elem d key elem x t' db) (found_rows key elem t db == 0) done in
      let created : (found_rows key elem t db == 0)
          ≡ not (is_some (elem_at key e (unix_milli t) db)) =
        found_rows-bound_at key elem t db w
        ∙ ap (λ o. not (is_some (bound_at key o (unix_milli t) db))) code in
      rw (count_one key elem t db good) (
        result ∙ ap ok created,
        subst IsValid (sym tables) st.valid,
        ap (get_score d j elem' now) tables
            ∙ get_score-eq-elem_at d j elem' now _ st.valid good'
            ∙ bound_score-IsStored key t' e y db _ w st j (d.elem_code elem') now
            ∙ ap
                (λ r.
                  if str_eq key j && same_elem (d.elem_code elem') e
                  then (if not_ended key db (unix_milli now) then ok y else err not_found)
                  else r)
                (sym (get_score-eq-elem_at d j elem' now db w good')),
      )

  -- ZADD of an element of a good type that is bound as a null (a NaN, a nil byte slice), on valid
  -- tables where the name has no row of another type, fails with SQLite's error, and in a transaction
  -- of its own that begins it leaves the tables as they were; ZINCRBY likewise.
  pub add_null :
      (key : String) (elem : AnyValue) (x : Float64) (t t' : Time) (o : TxOutcome) (db : Db)
      → IsValid db
      → Fits key db
      → is_value_type elem ≡ true
      → d.elem_code elem ≡ none
      → o.begin ≡ none
      → (exec_tx o (add d key elem x t t') db ≡ (err null_error, db))
        × (exec_tx o (incr d key elem x t) db ≡ (err null_error, db))
  unfolding add add_elem sql_put incr sql_incr
  add_null key elem x t t' o db w fits good null began =
      let (mid, up, done, u) = put_key-fits key t db w fits in
      let (mid', up', done', u') = put_key-fits key t' db w fits in
      let added : (add d key elem x t t' db).0 ≡ err null_error =
        rw (count_one key elem t db good) (rw (good, null) (rw done')) in
      let raised : (incr d key elem x t db).0 ≡ err null_error = rw (good, null) (rw done) in
      (
        exec_tx-err o (add d key elem x t t') db null_error began added,
        exec_tx-err o (incr d key elem x t) db null_error began raised,
      )
