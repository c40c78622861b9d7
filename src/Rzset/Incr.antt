-- ===== src/Rzset/Incr.antt =====
-- ZINCRBY as a reader sees it.
use redka.Base.{
  String, true, ◌&&◌, some, ◌≡◌, refl, arith, str_eq, if◌then◌else◌, inl, inr, ap, ◌∙◌,
  Option-cases, sym, false,
}
use redka.Core.{
  AnyValue, is_value_type, Float64, not_found, ok, err, Time, type_sorted_set, unix_milli,
}
use redka.Schema.{Db, find_key, find_elem, next_id}
use redka.Schema.Valid.{IsValid, LeavesValid, owner, of_type, find_id-next_id}
use redka.Schema.View.{not_ended}
use redka.Rzset.Driver.{SetDriver}
use redka.Rzset.{same_elem, incr, sql_incr, incremented, old_score, get_score}
use redka.Rzset.View.{elem_of, get_score-eq-elem_at}
use redka.Rzset.Write.{IsStored, stored_row, with_elem-IsStored, put_key-fits}
use redka.Rzset.Score.{Fits, unowned, bound_score-IsStored}

-- the element that the row of the name has, which a new row does not have
stored_elem :
    (key g : String) (t : Time) (db : Db)
    → IsValid db
    → find_elem (stored_row key t db).id g db.zsets ≡ elem_of g db (find_key key db.keys)
stored_elem key g t db w = elim (Option-cases (find_key key db.keys)) [
  | inl free ↦
      let n : owner type_sorted_set db.keys (next_id db.keys) ≡ false =
        ap (of_type type_sorted_set) (find_id-next_id db.keys) in
      let new : (stored_row key t db).id ≡ next_id db.keys = ground (arith, free) in
      ap (λ i. find_elem i g db.zsets) new
      ∙ unowned db.keys db.zsets (next_id db.keys) g w.zsets_owned n
      ∙ rw free
  | inr (old, e) ↦
      let same : (stored_row key t db).id ≡ old.id = ground (arith, e) in
      ap (λ i. find_elem i g db.zsets) same ∙ rw e
]

module _ (d : SetDriver) where
  incr-IsStored :
      (key : String) (elem : AnyValue) (e : String) (delta x : Float64) (t : Time) (db : Db)
      → IsValid db
      → Fits key db
      → is_value_type elem ≡ true
      → d.elem_code elem ≡ some e
      → incremented d (d.score_of delta) (old_score (elem_of e db (find_key key db.keys))) ≡ some x
      → ((incr d key elem delta t db).0 ≡ ok x)
        × IsStored key (stored_row key t db) e x db (incr d key elem delta t db).1
  unfolding incr sql_incr
  incr-IsStored key elem e delta x t db w fits good code sum =
      let (mid, up, done, u) = put_key-fits key t db w fits in
      let before : find_elem (stored_row key t db).id e mid.zsets
          ≡ elem_of e db (find_key key db.keys) =
        ap (find_elem (stored_row key t db).id e) u.zsets_same ∙ stored_elem key e t db w in
      rw (good, code)
        (rw done (
          rw (u.found, sql_incr)
            (rw (ap (λ o. incremented d (d.score_of delta) (old_score o)) before ∙ sum)
              (refl, with_elem-IsStored key t db w mid e x up))))

  -- ZINCRBY of an element of a good type that is not bound as a null, on valid tables where the name
  -- has no row of another type, when SQLite's sum of the score that the element has in the row of the name, live or expired, and
  -- of the increment (the increment alone, if there is no such element) is not null: `Incr` returns
  -- the sum, the tables stay valid, and afterwards `GetScore` of a value of a good type returns, for
  -- this name and element, the sum for as long as the row that the name had lasts (always, if it had
  -- none), and for every other name or element what it did.
  pub get_score-incr :
      (key : String) (elem : AnyValue) (e : String) (delta x : Float64) (t : Time) (db : Db)
      (j : String) (elem' : AnyValue) (now : Time)
      → IsValid db
      → Fits key db
      → is_value_type elem ≡ true
      → is_value_type elem' ≡ true
      → d.elem_code elem ≡ some e
      → incremented d (d.score_of delta) (old_score (elem_of e db (find_key key db.keys))) ≡ some x
      → ((incr d key elem delta t db).0 ≡ ok x)
        × LeavesValid (incr d key elem delta t db)
        × (get_score d j elem' now (incr d key elem delta t db).1 ≡ (
            if str_eq key j && same_elem (d.elem_code elem') e
            then (if not_ended key db (unix_milli now) then ok x else err not_found)
            else get_score d j elem' now db))
  get_score-incr key elem e delta x t db j elem' now w fits good good' code sum =
      let (done, st) = incr-IsStored key elem e delta x t db w fits good code sum in
      (
        done,
        st.valid,
        get_score-eq-elem_at d j elem' now _ st.valid good'
            ∙ bound_score-IsStored key t e x db _ w st j (d.elem_code elem') now
            ∙ ap
                (λ r.
                  if str_eq key j && same_elem (d.elem_code elem') e
                  then (if not_ended key db (unix_milli now) then ok x else err not_found)
                  else r)
                (sym (get_score-eq-elem_at d j elem' now db w good')),
      )
